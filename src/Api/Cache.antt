-- ===== src/Api/Cache.antt =====
-- crates/midgard-api/src/cache.rs: a value that is cached for a height. The lock makes the calls a
-- sequence; what the computation of a call returns, if it runs, is an argument.
pub mod History
use midgard_rs.Common.{
  Bool, true, false, Option, none, some, Result, ok, err, if◌then◌else◌, List, [], ◌∷◌,
}
use midgard_rs.Common.Int.{ℤ, eqb_ℤ}

pub record Entry (T : Type 0) : Type 0 where
  pub height : ℤ
  pub value : T

module _ {T : Type 0} where
  -- `HeightCache::new`
  abbrev pub new : Option (Entry T)
  new = none

  abbrev pub hit : Option (Entry T) → ℤ → Option T
  hit none height = none
  hit (some e) height = if eqb_ℤ e.height height then some e.value else none

  abbrev pub cached_height : Option (Entry T) → Option ℤ
  cached_height none = none
  cached_height (some e) = some e.height

module _ {E T : Type 0} where
  -- The store after the computation, where it did not fail.
  abbrev pub store : ℤ → Option (Entry T) → Result E T → Option (Entry T) × Result E T
  store height cache (err x) = (cache, err x)
  store height cache (ok v) = (some (record { height = height; value = v }), ok v)

  unfoldable pub get_or_compute : ℤ → Result E T → Option (Entry T) → Option (Entry T) × Result E T
  get_or_compute height computed cache = elim (hit cache height) [
    | some v ↦ (cache, ok v)
    | none ↦ store height cache computed
  ]
