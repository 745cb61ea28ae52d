-- ===== src/Record/Direction.antt =====
-- crates/midgard-record/src/events.rs: the directions of a swap.
pub mod Sides
use midgard_rs.Common.{Bool, true, false, Option, none, some}
use midgard_rs.Common.Int.{ℤ, pos}
use midgard_rs.Common.Text.{Text}
use midgard_rs.Core.Asset.{
  CoinType, coin_type, rune, native, synth, trade, derived, secure, unknown,
}

pub data Direction : Type 0 where
  rune_to_asset asset_to_rune rune_to_synth synth_to_rune : Direction
  rune_to_trade trade_to_rune rune_to_secure secure_to_rune : Direction

-- The match of `classify`.
abbrev pub of_types : CoinType → CoinType → Option Direction
of_types rune rune = none
of_types rune synth = some rune_to_synth
of_types rune trade = some rune_to_trade
of_types rune secure = some rune_to_secure
of_types rune native = some rune_to_asset
of_types rune derived = some rune_to_asset
of_types rune unknown = none
of_types synth rune = some synth_to_rune
of_types trade rune = some trade_to_rune
of_types secure rune = some secure_to_rune
of_types native rune = some asset_to_rune
of_types derived rune = some asset_to_rune
of_types f t = none

unfoldable pub classify : Text → Text → Option Direction
classify from to = of_types (coin_type from) (coin_type to)

unfoldable pub as_i16 : Direction → ℤ
as_i16 rune_to_asset = pos 0
as_i16 asset_to_rune = pos 1
as_i16 rune_to_synth = pos 2
as_i16 synth_to_rune = pos 3
as_i16 rune_to_trade = pos 4
as_i16 trade_to_rune = pos 5
as_i16 rune_to_secure = pos 6
as_i16 secure_to_rune = pos 7

unfoldable pub is_from_rune : Direction → Bool
is_from_rune rune_to_asset = true
is_from_rune rune_to_synth = true
is_from_rune rune_to_trade = true
is_from_rune rune_to_secure = true
is_from_rune d = false
