-- ===== src/Api/Answer/Deepest.antt =====
-- crates/midgard-api/src/usd.rs: the pool that prices RUNE is the deepest of those with depth.
use midgard_rs.Common.{
  ◌≡◌, refl, sym, ap, ◌∙◌, ◌⊎◌, Bool, true, false, ◌&&◌, Bool-cases, inl, inr, Option, none, some,
  List, [], ◌∷◌, if◌then◌else◌,
}
use mathlib.Core.List.{Memᴰ}
use mathlib.Core.Bool.{true≢false}
use midgard_rs.Common.Int.{ℤ, pos, ltb_ℤ, leb_ℤ}
use midgard_rs.Common.Text.{Text}
use midgard_rs.Common.Int.Order.{le_self, le_trans, lt-le, not_lt-le}
use midgard_rs.Api.Answer.{deepest, price_from_depths}

-- Both depths are positive.
abbrev pub has_depth : Text × ℤ × ℤ → Bool
has_depth (pool, asset_e8, rune_e8) = ltb_ℤ (pos 0) asset_e8 && ltb_ℤ (pos 0) rune_e8

-- Among the rows of a kind: none with depth, or the deepest with depth.
abbrev pub IsBest : (Text × ℤ × ℤ → Type 0) → Option (Text × ℤ × ℤ) → Type 0
IsBest P none = (row : Text × ℤ × ℤ) → P row → has_depth row ≡ false
IsBest P (some best) =
    P best
    × (has_depth best ≡ true)
    × ((row : Text × ℤ × ℤ) → P row → has_depth row ≡ true → leb_ℤ row.2 best.2 ≡ true)

IsBest-same :
    (P Q : Text × ℤ × ℤ → Type 0) (o : Option (Text × ℤ × ℤ))
    → ((x : Text × ℤ × ℤ) → P x → Q x)
    → ((x : Text × ℤ × ℤ) → Q x → P x)
    → IsBest P o
    → IsBest Q o
IsBest-same P Q none to from h = λ row q. h row (from row q)
IsBest-same P Q (some best) to from (p, d, h) = (to best p, d, λ row q k. h row (from row q) k)

-- The choice between the best row so far and the next.
abbrev better : Text × ℤ × ℤ → Option (Text × ℤ × ℤ) → Option (Text × ℤ × ℤ)
better (pool, asset_e8, rune_e8) best =
    if ltb_ℤ (pos 0) asset_e8 && ltb_ℤ (pos 0) rune_e8
    then elim best [
      | none ↦ some (pool, asset_e8, rune_e8)
      | some (p, a, r) ↦ if ltb_ℤ rune_e8 r then some (p, a, r) else some (pool, asset_e8, rune_e8)
    ]
    else best

better-IsBest :
    (P : Text × ℤ × ℤ → Type 0) (row : Text × ℤ × ℤ) (o : Option (Text × ℤ × ℤ))
    → IsBest P o
    → IsBest (λ x. P x ⊎ (x ≡ row)) (better row o)
better-IsBest P row none h = elim (Bool-cases (has_depth row)) [
  | inl e ↦ rw (better, e) (inr refl, e, λ x q k. alone e x q k)
  | inr e ↦ rw (better, e) (λ x q. elim q [ inl p ↦ h x p | inr same ↦ ap has_depth same ∙ e ])
]
  where
    alone :
        has_depth row ≡ true
        → (x : Text × ℤ × ℤ) → (P x ⊎ (x ≡ row))
        → has_depth x ≡ true
        → leb_ℤ x.2 row.2 ≡ true
    alone e x (inl p) k = absurd (true≢false (sym k ∙ h x p))
    alone e x (inr same) k = ap (λ z. leb_ℤ z.2 row.2) same ∙ le_self row.2
better-IsBest P row (some best) (p, d, h) = elim (Bool-cases (has_depth row)) [
  | inr e ↦ rw (better, e) (inl p, d, λ x q k. kept e x q k)
  | inl e ↦ elim (Bool-cases (ltb_ℤ row.2 best.2)) [
    | inl lt ↦ rw (better, e, lt) (inl p, d, λ x q k. below lt x q k)
    | inr ge ↦ rw (better, e, ge) (inr refl, e, λ x q k. above ge x q k)
  ]
]
  where
    kept :
        has_depth row ≡ false
        → (x : Text × ℤ × ℤ) → (P x ⊎ (x ≡ row))
        → has_depth x ≡ true
        → leb_ℤ x.2 best.2 ≡ true
    kept e x (inl q) k = h x q k
    kept e x (inr same) k = absurd (true≢false (sym k ∙ ap has_depth same ∙ e))

    below :
        ltb_ℤ row.2 best.2 ≡ true
        → (x : Text × ℤ × ℤ) → (P x ⊎ (x ≡ row))
        → has_depth x ≡ true
        → leb_ℤ x.2 best.2 ≡ true
    below lt x (inl q) k = h x q k
    below lt x (inr same) k = ap (λ z. leb_ℤ z.2 best.2) same ∙ lt-le row.2 best.2 lt

    above :
        ltb_ℤ row.2 best.2 ≡ false
        → (x : Text × ℤ × ℤ) → (P x ⊎ (x ≡ row))
        → has_depth x ≡ true
        → leb_ℤ x.2 row.2 ≡ true
    above ge x (inl q) k = le_trans x.2 best.2 row.2 (h x q k) (not_lt-le row.2 best.2 ge)
    above ge x (inr same) k = ap (λ z. leb_ℤ z.2 row.2) same ∙ le_self row.2

deepest-IsBest :
    (P : Text × ℤ × ℤ → Type 0) (rows : List (Text × ℤ × ℤ)) (o : Option (Text × ℤ × ℤ))
    → IsBest P o
    → IsBest (λ x. P x ⊎ Memᴰ x rows) (deepest rows o)
deepest-IsBest P [] o h =
    IsBest-same P (λ x. P x ⊎ Memᴰ x []) o (λ x p. inl p)
      (λ x q. elim q [ inl p ↦ p | inr m ↦ elim m [ ] ]) h
deepest-IsBest P (row ∷ rows) o h =
    IsBest-same (λ x. (P x ⊎ (x ≡ row)) ⊎ Memᴰ x rows) (λ x. P x ⊎ Memᴰ x (row ∷ rows))
      (deepest rows (better row o)) to from
      (deepest-IsBest (λ x. P x ⊎ (x ≡ row)) rows (better row o) (better-IsBest P row o h))
  where
    to : (x : Text × ℤ × ℤ) → ((P x ⊎ (x ≡ row)) ⊎ Memᴰ x rows) → P x ⊎ Memᴰ x (row ∷ rows)
    to x (inl (inl p)) = inl p
    to x (inl (inr same)) = inr (Memᴰ.head same)
    to x (inr m) = inr (Memᴰ.tail m)

    from : (x : Text × ℤ × ℤ) → (P x ⊎ Memᴰ x (row ∷ rows)) → (P x ⊎ (x ≡ row)) ⊎ Memᴰ x rows
    from x (inl p) = inl (inl p)
    from x (inr (Memᴰ.head same)) = inl (inr same)
    from x (inr (Memᴰ.tail m)) = inr m

-- The price comes from the deepest of the rows, or is 0.
abbrev pub IsPrice : List (Text × ℤ × ℤ) → Option (ℤ × ℤ) → Type 0
IsPrice rows none = (row : Text × ℤ × ℤ) → Memᴰ row rows → has_depth row ≡ false
IsPrice rows (some (a, r)) =
    (pool : Text) × Memᴰ (pool, a, r) rows
    × (has_depth (pool, a, r) ≡ true)
    × ((row : Text × ℤ × ℤ) → Memᴰ row rows → has_depth row ≡ true → leb_ℤ row.2 r ≡ true)

-- The price of RUNE is the quotient of the two depths of one of the rows with both depths positive,
-- none of which is deeper in RUNE; it is 0 only if no row has both depths positive.
pub price_from_depths-IsPrice : (rows : List (Text × ℤ × ℤ)) → IsPrice rows (price_from_depths rows)
unfolding price_from_depths
price_from_depths-IsPrice rows = from_best (deepest rows none) (
    IsBest-same (λ x. ⊥ ⊎ Memᴰ x rows) (λ x. Memᴰ x rows) (deepest rows none)
      (λ x q. elim q [ inl nothing ↦ absurd nothing | inr m ↦ m ]) (λ x m. inr m)
      (deepest-IsBest (λ x. ⊥) rows none (λ row nothing. absurd nothing)))
  where
    from_best :
        (o : Option (Text × ℤ × ℤ))
        → IsBest (λ x. Memᴰ x rows) o
        → IsPrice rows
            (elim o [ none ↦ none | some (pool, asset_e8, rune_e8) ↦ some (asset_e8, rune_e8) ])
    from_best none h = h
    from_best (some (pool, a, r)) (m, d, h) = (pool, m, d, h)
