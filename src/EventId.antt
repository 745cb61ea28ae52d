-- ===== src/EventId.antt =====
-- crates/midgard-db/src/eventid.rs: event identifiers that sort in chain order.
pub mod Order
pub mod Parse
mod Tests
use midgard_rs.Common.{ℕ, if◌then◌else◌}
use midgard_rs.Common.Int.{ℤ, pos, ltb_ℤ, quot, rem}
use midgard_rs.Common.Word.{add_i64, sub_i64, mul_i64}

pub data Location : Type 0 where
  begin_block txs_results end_block : Location

pub record EventId : Type 0 where
  pub height : ℤ
  pub location : Location
  pub tx_index : ℤ
  pub event_index : ℤ

abbrev pub height_scale : ℕ
height_scale = 10_000_000_000

abbrev pub type_digit : ℕ
type_digit = 1_000_000_000

abbrev pub tx_index_scale : ℕ
tx_index_scale = 10_000

abbrev pub end_block_pseudo_tx : ℤ
end_block_pseudo_tx = pos 999_999

-- `EventId::begin_block`, `tx_event` and `end_block`.
abbrev pub at_begin_block : ℤ → EventId
at_begin_block h = record {
  height = h;
  location = begin_block;
  tx_index = pos 0;
  event_index = pos 1;
}

abbrev pub at_tx_event : ℤ → ℤ → ℤ → EventId
at_tx_event h t e = record { height = h; location = txs_results; tx_index = t; event_index = e }

abbrev pub at_end_block : ℤ → ℤ → EventId
at_end_block h e = record { height = h; location = end_block; tx_index = pos 0; event_index = e }

abbrev encode : Location → ℤ → ℤ → ℤ → ℤ
encode begin_block h t e = add_i64 (mul_i64 h height_scale) e
encode txs_results h t e =
    add_i64 (add_i64 (add_i64 (mul_i64 h height_scale) (pos type_digit)) (mul_i64 t tx_index_scale))
      e
encode end_block h t e = add_i64 (add_i64 (mul_i64 h height_scale) (mul_i64 (pos type_digit) 9)) e

unfoldable pub to_i64 : EventId → ℤ
to_i64 id = encode id.location id.height id.tx_index id.event_index

-- The arms of `parse`, on the digits behind the height.
unfoldable pub parse_rest : ℤ → ℤ → EventId
parse_rest height rest =
    if ltb_ℤ rest (pos type_digit)
    then record { height = height; location = begin_block; tx_index = pos 0; event_index = rest }
    else if ltb_ℤ rest (mul_i64 (pos type_digit) 9)
    then record {
      height = height;
      location = txs_results;
      tx_index = quot (sub_i64 rest (pos type_digit)) tx_index_scale;
      event_index = rem rest tx_index_scale;
    }
    else record {
      height = height;
      location = end_block;
      tx_index = end_block_pseudo_tx;
      event_index = rem rest type_digit;
    }

unfoldable pub parse : ℤ → EventId
unfolding parse_rest
parse encoded = parse_rest (quot encoded height_scale) (rem encoded height_scale)

unfoldable pub height_of : ℤ → ℤ
height_of event_id = quot event_id height_scale

unfoldable pub first_id_at_height : ℤ → ℤ
first_id_at_height height = mul_i64 height height_scale

unfoldable pub first_id_after_height : ℤ → ℤ
first_id_after_height height = mul_i64 (add_i64 height (pos 1)) height_scale
