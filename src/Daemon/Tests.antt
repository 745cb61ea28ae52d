-- ===== src/Daemon/Tests.antt =====
-- A daemon that starts on an empty database, and a node with fourteen blocks.
use midgard_rs.Common.{
  ℕ, ◌≡◌, refl, Bool, true, false, Option, none, some, List, [], ◌∷◌, Result, ok, err, arith, sym,
  ◌∙◌,
}
use midgard_rs.Common.Int.{pos}
use midgard_rs.Common.Text.{Text, codes}
use midgard_rs.Chain.Rpc.{call, extract_result}
use midgard_rs.Chain.Tests.{
  Wire, formats, response, results, block_wire, results_wire, node, node-IsServed, client, starting,
}
use midgard_rs.Cursor as Cursor
use midgard_rs.Cursor.{next_height}
use midgard_rs.Record.Rows.{F64}
use midgard_rs.Record.Writer.{no_rows}
use mathlib.Core.List.{Memᴰ}
use midgard_rs.Core.Time.{to_nano}
use midgard_rs.Chain.ThorNode as ThorNode
use midgard_rs.Daemon.Bootstrap.{seed_pool_depths}
use midgard_rs.Daemon.Bootstrap.Seeds.{IsSeeded, seed_pool_depths-snapshot_at}
use midgard_rs.Daemon.Sync.{Syncer, Moment, new, step, follow, catch_up, first_height}
use midgard_rs.Daemon.Sync.CatchUp.{Ends, catch_up-Ends}
use midgard_rs.Daemon.Sync.Follow.{Follows, follow-Follows}
use midgard_rs.Daemon.Sync.Served.{Reaches, step-Reaches}

abbrev no_floats : Text → Option F64
no_floats s = none

abbrev daemon : Syncer
daemon = new client Cursor.new (pos 0) 3 [] no_rows

abbrev fine : ℕ → Moment Wire
fine i = record { node = node; add_commits = true; flush_commits = true; is_cancelled = false }

-- The first flush fails.
abbrev failing : ℕ → Moment Wire
failing i = record { node = node; add_commits = true; flush_commits = false; is_cancelled = false }

step-Reaches_example :
    Reaches formats no_floats 14 block_wire results_wire response results
      (omega arith)
      fine
      (λ i. record {
        served = node-IsServed 14;
        add_fine = refl;
        flush_fine = refl;
        goes_on = refl;
      })
      1
      daemon
      (step formats no_floats (starting 14) fine daemon)
unfolding call extract_result next_height first_height midgard_rs.Common.Word.add_i64
    midgard_rs.Common.Word.wrap midgard_rs.Common.Int.rem_euclid midgard_rs.Common.Int.◌+ℤ◌
step-Reaches_example =
    step-Reaches formats no_floats 14 block_wire results_wire response results (omega arith) fine
      (λ i. record {
        served = node-IsServed 14;
        add_fine = refl;
        flush_fine = refl;
        goes_on = refl;
      })
      1 1 daemon (starting 14) (omega arith) (omega arith) refl ((_, refl), tt) refl (omega arith)

catch_up-Ends_example :
    Ends formats no_floats 1 14 daemon (catch_up formats no_floats (pos 1) (pos 14) fine daemon)
catch_up-Ends_example =
    catch_up-Ends formats no_floats 1 14 fine daemon (omega arith) (omega arith) (omega arith)

follow-Follows_example :
    Follows formats no_floats 3 1 daemon (follow formats no_floats 3 (pos 1) failing 0 daemon)
follow-Follows_example = follow-Follows formats no_floats 3 1 failing 0 daemon (omega arith)

abbrev bitcoin : ThorNode.Pool
bitcoin = record {
  asset = codes "BTC.BTC";
  status = codes "Available";
  balance_asset = codes "500";
  balance_rune = codes "900";
  pool_units = codes "77";
  lp_units = codes "70";
  synth_units = codes "7";
  synth_supply = codes "5";
  savers_depth = codes "0";
  savers_units = codes "0";
  decimals = none;
}

only : (p : ThorNode.Pool) → Memᴰ p (bitcoin ∷ []) → p ≡ bitcoin
only p (Memᴰ.head e) = e
only p (Memᴰ.tail m) = elim m [ ]

seed_pool_depths-snapshot_at_example :
    IsSeeded
      (seed_pool_depths (some (bitcoin ∷ [])) true (pos 27260000) (pos 1000000000) no_rows).0
      bitcoin
      (pos 27260000)
      (pos 1000000000)
      (pos 9)
unfolding to_nano midgard_rs.Common.Word.mul_i64 midgard_rs.Common.Word.wrap
    midgard_rs.Common.Int.rem_euclid midgard_rs.Common.Int.◌*ℤ◌
seed_pool_depths-snapshot_at_example =
    seed_pool_depths-snapshot_at bitcoin [] bitcoin (pos 27260000) (pos 1000000000) (pos 9)
      (λ p q m k e. only p m ∙ sym (only q k)) (Memᴰ.head refl) refl refl
