-- ===== src/Api/Cache/History.antt =====
-- crates/midgard-api/src/cache.rs: what is served is what a computation at the height gave.
use midgard_rs.Common.{
  ◌≡◌, refl, ap, ◌∙◌, Bool-cases, inl, inr, ◌⊎◌, Option, none, some, List, [], ◌∷◌, Result, ok, err,
  ok-injective,
}
use midgard_rs.Common.Int.{ℤ, eqb_ℤ}
use midgard_rs.Common.Int.Order.{eqb-eq, eqb_self}
use midgard_rs.Api.Cache.{Entry, hit, store, get_or_compute, new}

abbrev pub IsFresh : {T : Type 0} → (ℤ → T) → Option (Entry T) → Type 0
IsFresh value none = Unit
IsFresh value (some e) = e.value ≡ value e.height

module _ {E T : Type 0} where
  -- The calls one after the other, each with its height and the outcome of its computation.
  abbrev pub serve : List (ℤ × Result E T) → Option (Entry T) → List (Result E T)
  serve [] cache = []
  serve ((height, computed) ∷ calls) cache =
      let (later, answer) = get_or_compute height computed cache in answer ∷ serve calls later

  -- Whatever is computed at a height is its value.
  abbrev pub AllComputed : (ℤ → T) → List (ℤ × Result E T) → Type 0
  AllComputed value [] = Unit
  AllComputed value ((height, computed) ∷ calls) =
      ((v : T) → computed ≡ ok v → v ≡ value height) × AllComputed value calls

  -- Each answer is the value at the height of the call, or the error of its own computation.
  abbrev pub AllAnswered : (ℤ → T) → List (ℤ × Result E T) → List (Result E T) → Type 0
  AllAnswered value [] [] = Unit
  AllAnswered value ((height, computed) ∷ calls) (a ∷ answers) =
      ((a ≡ ok (value height)) ⊎ ((x : E) × (computed ≡ err x) × (a ≡ err x)))
      × AllAnswered value calls answers
  AllAnswered value [] (a ∷ answers) = ⊥
  AllAnswered value (c ∷ calls) [] = ⊥

  store-IsFresh :
      (value : ℤ → T) (height : ℤ) (computed : Result E T) (cache : Option (Entry T))
      → IsFresh value cache
      → ((v : T) → computed ≡ ok v → v ≡ value height)
      → (let (later, a) = store height cache computed in
          IsFresh value later
          × ((a ≡ ok (value height)) ⊎ ((x : E) × (computed ≡ err x) × (a ≡ err x))))
  store-IsFresh value height (err x) cache fresh h = (fresh, inr (x, refl, refl))
  store-IsFresh value height (ok v) cache fresh h = (h v refl, inl (ap ok (h v refl)))

  get_or_compute-IsFresh :
      (value : ℤ → T) (height : ℤ) (computed : Result E T) (cache : Option (Entry T))
      → IsFresh value cache
      → ((v : T) → computed ≡ ok v → v ≡ value height)
      → (let (later, a) = get_or_compute height computed cache in
          IsFresh value later
          × ((a ≡ ok (value height)) ⊎ ((x : E) × (computed ≡ err x) × (a ≡ err x))))
  unfolding get_or_compute
  get_or_compute-IsFresh value height computed none fresh h =
      store-IsFresh value height computed none fresh h
  get_or_compute-IsFresh value height computed (some e) fresh h =
      elim (Bool-cases (eqb_ℤ e.height height)) [
        | inl same ↦
            rw (get_or_compute, same)
              (fresh, inl (ap ok (fresh ∙ ap value (eqb-eq e.height height same))))
        | inr other ↦
            rw (get_or_compute, other) (store-IsFresh value height computed (some e) fresh h)
      ]

  serve-from :
      (value : ℤ → T) (calls : List (ℤ × Result E T)) (cache : Option (Entry T))
      → IsFresh value cache
      → AllComputed value calls
      → AllAnswered value calls (serve calls cache)
  serve-from value [] cache fresh h = tt
  serve-from value ((height, computed) ∷ calls) cache fresh (h, hs) =
      let (later_fresh, answered) = get_or_compute-IsFresh value height computed cache fresh h in
      (answered, serve-from value calls (get_or_compute height computed cache).0 later_fresh hs)

  -- If each computation that succeeds at a height gives the value of that height, then in any
  -- sequence of calls each answer is the value of the height of its call, or the error of its own
  -- computation.
  pub serve-AllAnswered :
      (value : ℤ → T) (calls : List (ℤ × Result E T))
      → AllComputed value calls
      → AllAnswered value calls (serve calls new)
  serve-AllAnswered value calls h = serve-from value calls none tt h

  store-hit :
      (height : ℤ) (computed : Result E T) (cache : Option (Entry T)) (v : T)
      → (let (later, a) = store height cache computed in a ≡ ok v → hit later height ≡ some v)
  store-hit height (err x) cache v = λ h. cc
  store-hit height (ok w) cache v = λ h. rw (eqb_self height) (ap some (ok-injective h))

  get_or_compute-hit :
      (height : ℤ) (computed : Result E T) (cache : Option (Entry T)) (v : T)
      → (let (later, a) = get_or_compute height computed cache in
          a ≡ ok v → hit later height ≡ some v)
  unfolding get_or_compute
  get_or_compute-hit height computed none v = store-hit height computed none v
  get_or_compute-hit height computed (some e) v = elim (Bool-cases (eqb_ℤ e.height height)) [
    | inl same ↦ rw (get_or_compute, same) (λ h. rw same (ap some (ok-injective h)))
    | inr other ↦ rw (get_or_compute, other) (store-hit height computed (some e) v)
  ]

  -- After a call that succeeded, a call for the same height gives the same value and leaves the
  -- cache as it is, whatever its computation would return.
  pub get_or_compute-once :
      (height : ℤ) (v : T) (computed again : Result E T) (cache : Option (Entry T))
      → (get_or_compute height computed cache).1 ≡ ok v
      → get_or_compute height again (get_or_compute height computed cache).0
        ≡ ((get_or_compute height computed cache).0, ok v)
  unfolding get_or_compute
  get_or_compute-once height v computed again cache h =
      served (get_or_compute height computed cache).0 (get_or_compute-hit height computed cache v h)
    where
      served :
          (later : Option (Entry T))
          → hit later height ≡ some v
          → get_or_compute height again later ≡ (later, ok v)
      served later e = rw (get_or_compute, e) refl
