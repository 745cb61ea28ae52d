-- ===== src/Core/Asset.antt =====
-- crates/midgard-core/src/asset.rs: asset names.
pub mod Display
mod Case
use midgard_rs.Common.{
  ℕ, Bool, true, false, ◌||◌, Option, none, some, List, [], ◌∷◌, ◌++◌, ◌==◌, if◌then◌else◌,
}
use midgard_rs.Common.Text.{
  Text, codes, text_eq, to_ascii_uppercase, starts_with, contains, split_once, split, replace_first,
}

pub data CoinType : Type 0 where
  rune native synth trade derived secure unknown : CoinType

unfoldable pub native_rune : Text
native_rune = codes "THOR.RUNE"

unfoldable pub rune_67c : Text
rune_67c = codes "BNB.RUNE-67C"

unfoldable pub rune_b1a : Text
rune_b1a = codes "BNB.RUNE-B1A"

unfoldable pub is_rune : Text → Bool
unfolding native_rune rune_67c rune_b1a text_eq
is_rune s = text_eq s native_rune || text_eq s rune_67c || text_eq s rune_b1a

-- The tokens of THOR that are no derived assets.
unfoldable pub is_thor_token : Text → Bool
unfolding text_eq
is_thor_token s =
    text_eq s (codes "THOR.TCY") || text_eq s (codes "THOR.RUJI") || text_eq s (codes "THOR.NAMI")

-- `CoinType::of`
unfoldable pub coin_type : Text → CoinType
coin_type s =
    if is_rune s
    then rune
    else if is_thor_token s
    then native
    else if starts_with (to_ascii_uppercase s) (codes "X/")
    then native
    else if contains b'/' s
    then synth
    else if starts_with (to_ascii_uppercase s) (codes "THOR.")
    then derived
    else if contains b'.' s
    then native
    else if contains b'~' s
    then trade
    else if contains b'-' s
    then secure
    else unknown

pub record Asset : Type 0 where
  pub chain : Text
  pub ticker : Text
  pub symbol : Text
  pub synth : Bool
  pub trade : Bool

-- `split('-').next().unwrap_or("")`
abbrev pub first_part : List Text → Text
first_part [] = []
first_part (p ∷ ps) = p

abbrev pub make : Text → Text → Bool → Bool → Asset
make chain sym is_synth is_trade =
    let symbol = to_ascii_uppercase sym in
    record {
      chain = chain;
      ticker = first_part (split b'-' symbol);
      symbol = symbol;
      synth = is_synth;
      trade = is_trade;
    }

-- The parts of `splitn(2, …)`: a text with no separator is a symbol on THOR.
abbrev pub of_parts : Text → Option (Text × Text) → Bool → Bool → Asset
of_parts s none is_synth is_trade = make (codes "THOR") s is_synth is_trade
of_parts s (some (chain, sym)) is_synth is_trade =
    make (to_ascii_uppercase chain) sym is_synth is_trade

unfoldable pub parse : Text → Asset
parse s =
    if contains b'/' s
    then of_parts s (split_once (λ c. c == b'/') s) true false
    else if contains b'~' s
    then of_parts s (split_once (λ c. c == b'~') s) false true
    else of_parts s (split_once (λ c. c == b'.') s) false false

unfoldable pub is_native_chain : Asset → Bool
unfolding text_eq
is_native_chain a = text_eq a.chain (codes "THOR")

abbrev pub separator : Asset → ℕ
separator a = if a.synth then b'/' else if a.trade then b'~' else b'.'

unfoldable pub to_string : Asset → Text
to_string a = a.chain ++ separator a ∷ a.symbol

unfoldable pub native_pool_to_synth : Text → Text
unfolding replace_first
native_pool_to_synth pool = replace_first (λ c. c == b'.') b'/' pool

unfoldable pub synth_pool_to_native : Text → Text
unfolding replace_first
synth_pool_to_native pool = replace_first (λ c. c == b'/') b'.' pool
