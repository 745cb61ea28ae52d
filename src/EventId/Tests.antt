-- ===== src/EventId/Tests.antt =====
-- Identifiers at concrete positions of the chain.
use midgard_rs.Common.{◌≡◌, refl, arith}
use midgard_rs.Common.Int.{pos, ◌≤ℤ◌, ◌<ℤ◌}
use midgard_rs.EventId.{
  txs_results, end_block, to_i64, parse, height_of, first_id_at_height, first_id_after_height,
}
use midgard_rs.EventId.Order.{event_id, to_i64_mono, to_i64_bounds, by_phase}
use midgard_rs.EventId.Parse.{parse-to_i64, height_of-to_i64}

to_i64_mono_example :
    to_i64 (event_id txs_results 27260503 12 3) <ℤ to_i64 (event_id end_block 27260503 0 1)
to_i64_mono_example =
    to_i64_mono txs_results 27260503 12 3 end_block 27260503 0 1 (omega arith) (omega arith)
      (omega arith, omega arith) (omega arith) (by_phase refl (omega arith))

to_i64_bounds_example :
    (first_id_at_height (pos 27260503) ≤ℤ to_i64 (event_id txs_results 27260503 12 3))
    × (to_i64 (event_id txs_results 27260503 12 3) <ℤ first_id_after_height (pos 27260503))
to_i64_bounds_example =
    to_i64_bounds txs_results 27260503 12 3 (omega arith) (omega arith, omega arith)

parse-to_i64_example : parse (to_i64 (event_id txs_results 27260503 12 3)) ≡ record {
  height = pos 27260503;
  location = txs_results;
  tx_index = pos 12;
  event_index = pos 3;
}
parse-to_i64_example =
    parse-to_i64 txs_results 27260503 12 3 (omega arith) (omega arith, omega arith)

height_of-to_i64_example : height_of (to_i64 (event_id txs_results 27260503 12 3)) ≡ pos 27260503
height_of-to_i64_example =
    height_of-to_i64 txs_results 27260503 12 3 (omega arith) (omega arith, omega arith)
