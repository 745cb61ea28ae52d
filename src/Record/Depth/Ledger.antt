-- ===== src/Record/Depth/Ledger.antt =====
-- crates/midgard-record/src/depth.rs: what an event books on a pool, in exact integers, and the
-- balances that follow from a list of events.
use midgard_rs.Common.{Bool, List, [], ◌∷◌, ◌++◌, if◌then◌else◌}
use midgard_rs.Common.Int.{ℤ, pos, ◌+ℤ◌, ◌-ℤ◌, eqb_ℤ}
use midgard_rs.Common.Word.{IsI64, wrap}
use midgard_rs.Common.Text.{Text, text_eq}
use midgard_rs.Core.Asset.{coin_type, is_rune}
use midgard_rs.Record.Rows as Rows
use midgard_rs.Record.Rows.{Recorded, Swap}
use midgard_rs.Record.Depth.{Depth, no_depth, is_synth, pool_of_asset}

-- Exact sums of balances.
unfoldable pub plus : Depth → Depth → Depth
plus a b = record {
  asset_e8 = a.asset_e8 +ℤ b.asset_e8;
  rune_e8 = a.rune_e8 +ℤ b.rune_e8;
  synth_e8 = a.synth_e8 +ℤ b.synth_e8;
  units = a.units +ℤ b.units;
}

-- Balances as i64 holds them.
unfoldable pub wrapped : Depth → Depth
wrapped d = record {
  asset_e8 = wrap d.asset_e8;
  rune_e8 = wrap d.rune_e8;
  synth_e8 = wrap d.synth_e8;
  units = wrap d.units;
}

abbrev pub IsDepth : Depth → Type 0
IsDepth d = IsI64 d.asset_e8 × IsI64 d.rune_e8 × IsI64 d.synth_e8 × IsI64 d.units

abbrev pub amounts : ℤ → ℤ → Depth
amounts asset rune = record { asset_e8 = asset; rune_e8 = rune; synth_e8 = pos 0; units = pos 0 }

abbrev pub minus : ℤ → ℤ
minus z = pos 0 -ℤ z

-- A swap pays `from` in and `to` out; a synth is counted by its supply, which a mint raises.
abbrev pub swap_amounts : Swap → Depth
swap_amounts s =
    if is_synth (coin_type s.to_asset)
    then record { asset_e8 = pos 0; rune_e8 = s.from_e8; synth_e8 = s.to_e8; units = pos 0 }
    else if is_synth (coin_type s.from_asset)
    then record {
      asset_e8 = pos 0;
      rune_e8 = minus s.to_e8;
      synth_e8 = minus s.from_e8;
      units = pos 0;
    }
    else if is_rune s.from_asset
    then amounts (minus s.to_e8) s.from_e8
    else amounts s.from_e8 (minus s.to_e8)

abbrev pub exact_signed : Bool → ℤ → ℤ
exact_signed plus n = if plus then n else minus n

abbrev pub rewards_bookings : List (Text × ℤ) → List (Text × Depth)
rewards_bookings [] = []
rewards_bookings ((pool, n) ∷ rest) = (pool, amounts (pos 0) n) ∷ rewards_bookings rest

abbrev pub stake_amounts : Rows.Stake → Depth
stake_amounts s = record {
  asset_e8 = s.asset_e8;
  rune_e8 = s.rune_e8;
  synth_e8 = pos 0;
  units = s.stake_units;
}

-- A withdrawal pays both sides out, and the protection in.
abbrev pub withdraw_amounts : Rows.Withdraw → Depth
withdraw_amounts w = record {
  asset_e8 = minus w.emit_asset_e8;
  rune_e8 = w.imp_loss_protection_e8 -ℤ w.emit_rune_e8;
  synth_e8 = pos 0;
  units = minus w.stake_units;
}

-- The pools an event books on, each with its exact change.
unfoldable pub bookings : Recorded → List (Text × Depth)
bookings (Rows.swap s) = (s.pool, swap_amounts s) ∷ []
bookings (Rows.stake s) = (s.pool, stake_amounts s) ∷ []
bookings (Rows.withdraw w) = (w.pool, withdraw_amounts w) ∷ []
bookings (Rows.add a) = (a.pool, amounts a.asset_e8 a.rune_e8) ∷ []
bookings (Rows.errata e) = (e.asset, amounts e.asset_e8 e.rune_e8) ∷ []
bookings (Rows.pool_balance_change c) =
    (c.asset, amounts (exact_signed c.asset_add c.asset_amt) (exact_signed c.rune_add c.rune_amt))
    ∷ []
bookings (Rows.rewards r) = rewards_bookings r.per_pool
bookings (Rows.slash s) =
    (s.pool, if is_rune s.asset then amounts (pos 0) s.asset_e8 else amounts s.asset_e8 (pos 0))
    ∷ []
bookings (Rows.fee f) =
    if eqb_ℤ f.pool_deduct (pos 0)
    then []
    else (pool_of_asset f.asset, amounts (pos 0) (minus f.pool_deduct)) ∷ []
bookings (Rows.gas g) = (pool_of_asset g.asset, amounts (minus g.asset_e8) g.rune_e8) ∷ []
bookings r = []

abbrev pub all_bookings : List Recorded → List (Text × Depth)
all_bookings [] = []
all_bookings (r ∷ rs) = bookings r ++ all_bookings rs

-- The exact change of one pool.
unfoldable pub total : Text → List (Text × Depth) → Depth
unfolding plus text_eq
total pool [] = no_depth
total pool ((p, d) ∷ bs) = let rest = total pool bs in if text_eq p pool then plus d rest else rest
