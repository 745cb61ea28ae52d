-- ===== src/Record/Tests.antt =====
-- A block of events, and texts of both kinds.
use midgard_rs.Common.{
  true, false, ◌++◌, ◌≡◌, refl, ◌⊎◌, Option, none, List, [], ◌∷◌, arith, to_option,
}
use mathlib.Core.List.{Permᴰ}
use midgard_rs.Common.Int.{pos}
use midgard_rs.Common.Text.{Text, codes}
use midgard_rs.Core.Asset.{coin_type, to_string, parse}
use midgard_rs.Core.Asset.Display.{printed, to_string-parse}
use midgard_rs.Chain.Types.{Event, Block, make_event}
use midgard_rs.Record.Coin.{parse_coin, parse_cosmos_coin}
use midgard_rs.Record.Coin.Dialects.{parse_coin-or-parse_cosmos_coin}
use midgard_rs.Record.Direction.{classify}
use midgard_rs.Record.Direction.Sides.{IsClassified, classify-IsClassified}
use midgard_rs.Record.Rows as Rows
use midgard_rs.Record.Rows.{Recorded, F64}
use midgard_rs.Record.Decode.{decode}
use midgard_rs.Record.Decode.Coverage.{IsRouted, decode-IsRouted}
use midgard_rs.Record.Depth.{new, get, apply_all, take_changed}
use midgard_rs.Record.Depth.Ledger.{plus, wrapped, total, all_bookings}
use midgard_rs.Record.Depth.Balances.{get-apply_all}
use midgard_rs.Record.Depth.Changes.{IsReport, take_changed-IsReport}
use midgard_rs.Record.Writer as Writer
use midgard_rs.Record.Writer.{add_all, no_rows}
use midgard_rs.Record.Tables.{write_batch, write_events}
use midgard_rs.Record.Tables.Shape.{AllShaped, write_batch-AllShaped}
use midgard_rs.Record.Tables.Fields.{rows_of_all}
use midgard_rs.Record.Tables.Placed.{placed, placed-write_events}
use midgard_rs.Record.Rollback.{delete_from_height}
use midgard_rs.Record.Rollback.Fork.{both, delete_from_height-fork}
use midgard_rs.Record.Writer.Ledger.{rows_of_blocks, add_all-events}

abbrev donation : Rows.Add
donation = record {
  tx = [];
  chain = codes "BTC";
  from_addr = [];
  to_addr = [];
  asset = none;
  asset_e8 = pos 100;
  memo = [];
  rune_e8 = pos 250;
  pool = codes "BTC.BTC";
}

abbrev fee_of_btc : Rows.Fee
fee_of_btc = record { tx = []; asset = codes "BTC/BTC"; asset_e8 = pos 3; pool_deduct = pos 50 }

abbrev two_events : List Recorded
two_events = Rows.add donation ∷ Rows.fee fee_of_btc ∷ []

get-apply_all_example :
    get (apply_all two_events new) (codes "BTC.BTC")
    ≡ wrapped (plus (get new (codes "BTC.BTC")) (total (codes "BTC.BTC") (all_bookings two_events)))
unfolding get
get-apply_all_example = get-apply_all two_events new (codes "BTC.BTC") (
  (omega arith, omega arith),
  (omega arith, omega arith),
  (omega arith, omega arith),
  (omega arith, omega arith),
)

take_changed-IsReport_example : IsReport two_events new (take_changed (apply_all two_events new))
take_changed-IsReport_example = take_changed-IsReport two_events new refl

abbrev no_floats : Text → Option F64
no_floats s = none

abbrev tcy_claim : Event
tcy_claim = make_event (codes "tcy_claim") []

decode-IsRouted_example : IsRouted (codes "tcy_claim") (decode no_floats tcy_claim)
unfolding make_event
decode-IsRouted_example = decode-IsRouted no_floats tcy_claim

classify-IsClassified_example :
    IsClassified
      (coin_type (codes "THOR.RUNE"))
      (coin_type (codes "BTC~BTC"))
      (classify (codes "THOR.RUNE") (codes "BTC~BTC"))
classify-IsClassified_example = classify-IsClassified (codes "THOR.RUNE") (codes "BTC~BTC")

parse_coin-or-parse_cosmos_coin_example :
    (to_option (parse_coin (codes "100 BTC.BTC")) ≡ none)
    ⊎ (to_option (parse_cosmos_coin (codes "100 BTC.BTC")) ≡ none)
parse_coin-or-parse_cosmos_coin_example = parse_coin-or-parse_cosmos_coin (codes "100 BTC.BTC")

to_string-parse_example :
    (to_string (parse (codes "btc-btc")) ≡ printed (codes "btc-btc"))
    × (parse (to_string (parse (codes "btc-btc"))) ≡ parse (codes "btc-btc"))
to_string-parse_example = to_string-parse (codes "btc-btc")

abbrev one_block : Block
one_block = record {
  height = pos 7;
  timestamp = pos 7_000_000_000;
  hash = codes "00FF";
  chain_id = [];
  finalize_block_events =
      tcy_claim
      ∷ make_event (codes "slash")
          ((codes "pool", codes "BTC.BTC") ∷ (codes "BTC.BTC", codes "12") ∷ [])
      ∷ [];
  txs_results = none;
  txs = [];
}

add_all-events_example :
    (let (later, next) = add_all no_floats ((one_block, false) ∷ []) no_rows (Writer.new 1) in
      later.events ++ next.waiting.events)
    ≡ rows_of_blocks no_floats ((one_block, false) ∷ [])
add_all-events_example = add_all-events no_floats ((one_block, false) ∷ []) no_rows (Writer.new 1)

abbrev two_rows : Writer.Rows
two_rows = record {
  blocks = record { height = pos 4; timestamp = pos 10; hash = [] } ∷ [];
  events =
      record { event_id = pos 1; block_timestamp = pos 10; content = Rows.add donation }
      ∷ record { event_id = pos 2; block_timestamp = pos 10; content = Rows.fee fee_of_btc }
      ∷ [];
  depths = [];
}

write_batch-AllShaped_example : AllShaped (write_batch two_rows)
write_batch-AllShaped_example = write_batch-AllShaped two_rows

abbrev reward_rows : List Writer.Pending
reward_rows =
    record {
      event_id = pos 3;
      block_timestamp = pos 10;
      content = Rows.rewards (record { bond_e8 = pos 5; per_pool = (codes "BTC.BTC", pos 4) ∷ [] });
    }
    ∷ two_rows.events

placed-write_events_example : Permᴰ (placed (write_events reward_rows)) (rows_of_all reward_rows)
placed-write_events_example = placed-write_events reward_rows

-- A fork of one block behind another.
abbrev old_rows : Writer.Rows
old_rows = record {
  blocks = record { height = pos 4; timestamp = pos 10; hash = [] } ∷ [];
  events = record { event_id = pos 1; block_timestamp = pos 10; content = Rows.add donation } ∷ [];
  depths = [];
}

abbrev fork_block : Writer.BlockRow
fork_block = record { height = pos 5; timestamp = pos 20; hash = [] }

abbrev fork_rows : Writer.Rows
fork_rows = record {
  blocks = fork_block ∷ [];
  events =
      record { event_id = pos 2; block_timestamp = pos 20; content = Rows.fee fee_of_btc } ∷ [];
  depths = [];
}

delete_from_height-fork_example :
    delete_from_height true (both old_rows fork_rows) (pos 5) ≡ (old_rows, true)
delete_from_height-fork_example =
    delete_from_height-fork true old_rows fork_rows fork_block (pos 5) refl
      (record { blocks_low = (refl, tt); events_early = (refl, tt); depths_early = tt })
      (record { blocks_high = (refl, tt); events_late = (refl, tt); depths_late = tt })
