-- ===== src/Record/Coin.antt =====
-- crates/midgard-record/src/coin.rs: the two dialects of coin strings.
pub mod Dialects
use midgard_rs.Common.{
  ℕ, Bool, true, false, not, ◌||◌, ◌&&◌, Option, none, some, List, [], ◌∷◌, map, Result, ok, err,
  ◌>>=◌, ok_or, map_err, ◌==◌, if◌then◌else◌,
}
use midgard_rs.Common.Int.{ℤ, pos}
use midgard_rs.Common.Word.{add_i64}
use midgard_rs.Common.Text.{
  Text, codes, text_eq, split, split_once, is_whitespace, is_digit, is_nil, trim, parse_i64,
  to_ascii_uppercase,
}
use midgard_rs.Core.Asset as Asset
use midgard_rs.Core.Asset.{native_rune}

pub record Coin : Type 0 where
  pub asset : Text
  pub amount_e8 : ℤ

abbrev pub is_rune : Coin → Bool
is_rune c = Asset.is_rune c.asset

pub data CoinError : Type 0 where
  shape : Text → CoinError
  amount : Text → CoinError

-- `parse_coin` behind the first `trim`.
abbrev pub coin_parts : Text → Text × Text → Result CoinError Coin
coin_parts s (number, denom) =
    let asset = trim denom in
    if is_nil asset
    then err (shape s)
    else (ok_or (parse_i64 (trim number)) (amount s) >>= λ n.
        ok (record { asset = asset; amount_e8 = n }))

unfoldable pub coin_trimmed : Text → Result CoinError Coin
coin_trimmed s = ok_or (split_once is_whitespace s) (shape s) >>= coin_parts s

unfoldable pub parse_coin : Text → Result CoinError Coin
parse_coin s = coin_trimmed (trim s)

-- `.map(f).collect()` into a result: the first error ends it.
unfoldable pub collect : (Text → Result CoinError Coin) → List Text → Result CoinError (List Coin)
collect f [] = ok []
collect f (s ∷ ss) = f s >>= λ c. collect f ss >>= λ cs. ok (c ∷ cs)

unfoldable pub filter_nonempty : List Text → List Text
filter_nonempty [] = []
filter_nonempty (s ∷ ss) = if is_nil s then filter_nonempty ss else s ∷ filter_nonempty ss

-- What `parse_coins` and `parse_cosmos_coins` share.
unfoldable pub parse_list : (Text → Result CoinError Coin) → Text → Result CoinError (List Coin)
parse_list f s =
    let t = trim s in
    if is_nil t then ok [] else collect f (filter_nonempty (map trim (split b',' t)))

unfoldable pub parse_coins : Text → Result CoinError (List Coin)
parse_coins s = parse_list parse_coin s

-- The leading run of digits, and what follows it: `find`, `s[..split]` and `s[split..]`.
unfoldable pub span_digits : Text → Text × Text
span_digits [] = ([], [])
span_digits (c ∷ s) = let (a, b) = span_digits s in if is_digit c then (c ∷ a, b) else ([], c ∷ s)

unfoldable pub any_whitespace : Text → Bool
any_whitespace [] = false
any_whitespace (c ∷ s) = is_whitespace c || any_whitespace s

unfoldable pub asset_of_denom : Text → Text
asset_of_denom denom =
    if text_eq denom (codes "rune") then native_rune else to_ascii_uppercase denom

-- `parse_cosmos_coin` behind the first `trim`. The denomination is empty just when `find` finds
-- nothing.
unfoldable pub cosmos_trimmed : Text → Result CoinError Coin
cosmos_trimmed s =
    let (digits, denom) = span_digits s in
    if is_nil s
    then err (shape s)
    else if is_nil denom
    then err (shape s)
    else if is_nil digits
    then err (amount s)
    else (ok_or (parse_i64 digits) (amount s) >>= λ n.
        if any_whitespace denom
        then err (shape s)
        else ok (record { asset = asset_of_denom denom; amount_e8 = n }))

unfoldable pub parse_cosmos_coin : Text → Result CoinError Coin
parse_cosmos_coin s = cosmos_trimmed (trim s)

unfoldable pub parse_cosmos_coins : Text → Result CoinError (List Coin)
parse_cosmos_coins s = parse_list parse_cosmos_coin s

-- `sum` over i64 wraps round.
unfoldable pub rune_total : List Coin → ℤ
rune_total [] = pos 0
rune_total (c ∷ cs) = if is_rune c then add_i64 c.amount_e8 (rune_total cs) else rune_total cs

unfoldable pub first_asset : List Coin → Option Coin
first_asset [] = none
first_asset (c ∷ cs) = if is_rune c then first_asset cs else some c

unfoldable pub split_rune : List Coin → ℤ × Option Coin
unfolding rune_total first_asset
split_rune coins = (rune_total coins, first_asset coins)
