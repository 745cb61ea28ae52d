-- ===== src/Record/Direction/Sides.antt =====
-- crates/midgard-record/src/events.rs: which pairs of assets have a direction, and its number.
use midgard_rs.Common.{ℕ, ◌+◌, ◌*◌, Bool, true, false, ◌≡◌, refl, Option, none, some, if◌then◌else◌}
use midgard_rs.Common.Int.{pos}
use midgard_rs.Common.Text.{Text}
use midgard_rs.Core.Asset.{
  CoinType, coin_type, rune, native, synth, trade, derived, secure, unknown,
}
use midgard_rs.Record.Direction.{Direction, classify, is_from_rune, of_types, as_i16}

-- The class of an asset against which RUNE is swapped; native and derived assets share one.
abbrev pub class : CoinType → Option ℕ
class rune = none
class native = some 0
class derived = some 0
class synth = some 1
class trade = some 2
class secure = some 3
class unknown = none

abbrev pub is_rune_type : CoinType → Bool
is_rune_type rune = true
is_rune_type c = false

-- The class of the other side, where exactly one side is RUNE.
abbrev pub other_class : CoinType → CoinType → Option ℕ
other_class f t = if is_rune_type f then class t else if is_rune_type t then class f else none

-- The direction of a pair has the number of its class, doubled, and one more where RUNE comes out.
abbrev pub IsClassified : CoinType → CoinType → Option Direction → Type 0
IsClassified f t none = other_class f t ≡ none
IsClassified f t (some d) =
    (k : ℕ) × (other_class f t ≡ some k)
    × (is_from_rune d ≡ is_rune_type f)
    × (as_i16 d ≡ pos (if is_rune_type f then k * 2 else k * 2 + 1))

of_types-IsClassified : (f t : CoinType) → IsClassified f t (of_types f t)
unfolding is_from_rune as_i16
of_types-IsClassified rune t = elim t as (λ u. IsClassified rune u (of_types rune u)) [
  | rune ↦ refl
  | native ↦ (0, refl, refl, refl)
  | synth ↦ (1, refl, refl, refl)
  | trade ↦ (2, refl, refl, refl)
  | derived ↦ (0, refl, refl, refl)
  | secure ↦ (3, refl, refl, refl)
  | unknown ↦ refl
]
of_types-IsClassified native t = elim t as (λ u. IsClassified native u (of_types native u)) [
  | rune ↦ (0, refl, refl, refl)
  | native ↦ refl
  | synth ↦ refl
  | trade ↦ refl
  | derived ↦ refl
  | secure ↦ refl
  | unknown ↦ refl
]
of_types-IsClassified synth t = elim t as (λ u. IsClassified synth u (of_types synth u)) [
  | rune ↦ (1, refl, refl, refl)
  | native ↦ refl
  | synth ↦ refl
  | trade ↦ refl
  | derived ↦ refl
  | secure ↦ refl
  | unknown ↦ refl
]
of_types-IsClassified trade t = elim t as (λ u. IsClassified trade u (of_types trade u)) [
  | rune ↦ (2, refl, refl, refl)
  | native ↦ refl
  | synth ↦ refl
  | trade ↦ refl
  | derived ↦ refl
  | secure ↦ refl
  | unknown ↦ refl
]
of_types-IsClassified derived t = elim t as (λ u. IsClassified derived u (of_types derived u)) [
  | rune ↦ (0, refl, refl, refl)
  | native ↦ refl
  | synth ↦ refl
  | trade ↦ refl
  | derived ↦ refl
  | secure ↦ refl
  | unknown ↦ refl
]
of_types-IsClassified secure t = elim t as (λ u. IsClassified secure u (of_types secure u)) [
  | rune ↦ (3, refl, refl, refl)
  | native ↦ refl
  | synth ↦ refl
  | trade ↦ refl
  | derived ↦ refl
  | secure ↦ refl
  | unknown ↦ refl
]
of_types-IsClassified unknown t = elim t as (λ u. IsClassified unknown u (of_types unknown u)) [
  | rune ↦ refl
  | native ↦ refl
  | synth ↦ refl
  | trade ↦ refl
  | derived ↦ refl
  | secure ↦ refl
  | unknown ↦ refl
]

-- `classify` finds a direction exactly where one side is RUNE and the other is of a class; the
-- direction tells whether RUNE is the side that goes in, and its number is twice the class, plus
-- one where RUNE comes out.
pub classify-IsClassified :
    (from to : Text) → IsClassified (coin_type from) (coin_type to) (classify from to)
unfolding classify
classify-IsClassified from to = of_types-IsClassified (coin_type from) (coin_type to)
