-- ===== src/Api/Answer.antt =====
-- crates/midgard-api/src/error.rs, usd.rs and handlers/health.rs: the response to an error, the pool
-- that prices RUNE, and the check of the age of the last block.
pub mod Deepest
use midgard_rs.Common.{ℕ, Bool, true, false, ◌&&◌, Option, none, some, List, [], ◌∷◌, if◌then◌else◌}
use midgard_rs.Common.Int.{ℤ, pos, ltb_ℤ}
use midgard_rs.Common.Word.{sub_i64}
use midgard_rs.Common.Text.{Text, codes}
use midgard_rs.Core.Error.{Error, bad_request, not_found, internal, status_code}
use midgard_rs.Core.Time.{to_second}
use midgard_rs.Cursor.{BlockCursor}

-- `Error::public_message`
abbrev pub public_message : Error → Text
public_message (bad_request m) = m
public_message (not_found m) = m
public_message (internal m) = codes "Internal Server Error"

-- `ApiError::into_response`: the status, and the text under "error".
abbrev pub into_response : Error → ℕ × Text
into_response e = (status_code e, public_message e)

-- `max_by_key` keeps the last of equal rows.
abbrev pub deepest : List (Text × ℤ × ℤ) → Option (Text × ℤ × ℤ) → Option (Text × ℤ × ℤ)
deepest [] best = best
deepest ((pool, asset_e8, rune_e8) ∷ rows) best = deepest rows (
    if ltb_ℤ (pos 0) asset_e8 && ltb_ℤ (pos 0) rune_e8
    then elim best [
      | none ↦ some (pool, asset_e8, rune_e8)
      | some (p, a, r) ↦ if ltb_ℤ rune_e8 r then some (p, a, r) else some (pool, asset_e8, rune_e8)
    ]
    else best)

-- The two depths whose quotient is the price, or none where the price is 0.
unfoldable pub price_from_depths : List (Text × ℤ × ℤ) → Option (ℤ × ℤ)
price_from_depths rows = elim (deepest rows none) [
  | none ↦ none
  | some (pool, asset_e8, rune_e8) ↦ some (asset_e8, rune_e8)
]

-- `in_sync` of `health`, from the wall clock and the configured age in seconds.
unfoldable pub in_sync : BlockCursor → ℤ → ℤ → Bool
in_sync c now max_block_age =
    ltb_ℤ (pos 0) c.last.height && ltb_ℤ (sub_i64 now (to_second c.last.timestamp)) max_block_age
