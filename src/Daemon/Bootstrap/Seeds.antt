-- ===== src/Daemon/Bootstrap/Seeds.antt =====
-- crates/midgard/src/bootstrap.rs: a query after the seed finds the seeded depths.
use midgard_rs.Common.{
  ◌≡◌, refl, sym, ap, ◌∙◌, Bool, true, false, Bool-cases, inl, inr, some, List, [], ◌∷◌,
  if◌then◌else◌, and_true, and_left,
}
use mathlib.Core.Bool.{true≢false}
use mathlib.Core.List.{Memᴰ}
use midgard_rs.Common.Int.{ℤ, leb_ℤ}
use midgard_rs.Common.Text.{text_eq, text_eq_iff, is_nil, to_ascii_lowercase}
use midgard_rs.Core.Time.{Second, to_nano}
use midgard_rs.Chain.ThorNode as ThorNode
use midgard_rs.Chain.ThorNode.{e8}
use midgard_rs.Record.Rows as Recorded
use midgard_rs.EventId.{first_id_at_height}
use midgard_rs.Record.Writer.{Rows, PendingDepth, no_rows}
use midgard_rs.Daemon.Bootstrap.{depth_row, status_row, seed_rows, seed_pool_depths}
use midgard_rs.Api.Depths.{Snapshot, snapshot_at}
use midgard_rs.Api.Depths.Closing.{no_depth, row_depth, is_row_until, snapshot_at-IsStateAt}

-- The depth rows of a seed.
abbrev pub seeded : ℤ → ℤ → List ThorNode.Pool → List PendingDepth
seeded event_id timestamp ps = (seed_rows event_id timestamp ps).0

Memᴰ-seeded :
    (id ts : ℤ) (ps : List ThorNode.Pool) (d : PendingDepth)
    → Memᴰ d (seeded id ts ps)
    → (q : ThorNode.Pool) × Memᴰ q ps × (d ≡ depth_row ts q) × (is_nil q.asset ≡ false)
Memᴰ-seeded id ts [] d m = elim m [ ]
Memᴰ-seeded id ts (p ∷ ps) d m = by_name (is_nil p.asset) refl (Memᴰ-seeded id ts ps d) m
  where
    by_name :
        (b : Bool)
        → is_nil p.asset ≡ b
        → (Memᴰ d (seeded id ts ps)
            → (q : ThorNode.Pool) × Memᴰ q ps × (d ≡ depth_row ts q) × (is_nil q.asset ≡ false))
        → Memᴰ d
            (if b then seed_rows id ts ps else (
              depth_row ts p ∷ (seed_rows id ts ps).0,
              status_row id ts p ∷ (seed_rows id ts ps).1,
            )).0
        → (q : ThorNode.Pool) × Memᴰ q (p ∷ ps) × (d ≡ depth_row ts q) × (is_nil q.asset ≡ false)
    by_name true n later h = let (q, k, e, f) = later h in (q, Memᴰ.tail k, e, f)
    by_name false n later (Memᴰ.head e) = (p, Memᴰ.head refl, e, n)
    by_name false n later (Memᴰ.tail h) = let (q, k, e, f) = later h in (q, Memᴰ.tail k, e, f)

seeded-Memᴰ :
    (id ts : ℤ) (ps : List ThorNode.Pool) (q : ThorNode.Pool)
    → Memᴰ q ps
    → is_nil q.asset ≡ false
    → Memᴰ (depth_row ts q) (seeded id ts ps)
seeded-Memᴰ id ts [] q m e = elim m [ ]
seeded-Memᴰ id ts (p ∷ ps) q (Memᴰ.head same) e =
    let named : is_nil p.asset ≡ false = ap (λ x. is_nil x.asset) (sym same) ∙ e in
    rw (seeded, seed_rows, named) (Memᴰ.head (ap (depth_row ts) same))
seeded-Memᴰ id ts (p ∷ ps) q (Memᴰ.tail m) e =
    let later = seeded-Memᴰ id ts ps q m e in
    elim (Bool-cases (is_nil p.asset)) [
      | inl k ↦ rw (seeded, seed_rows, k) later
      | inr k ↦ rw (seeded, seed_rows, k) (Memᴰ.tail later)
    ]

seeded-status :
    (id ts : ℤ) (ps : List ThorNode.Pool) (q : ThorNode.Pool)
    → Memᴰ q ps
    → is_nil q.asset ≡ false
    → Memᴰ (status_row id ts q) (seed_rows id ts ps).1
seeded-status id ts [] q m e = elim m [ ]
seeded-status id ts (p ∷ ps) q (Memᴰ.head same) e =
    let named : is_nil p.asset ≡ false = ap (λ x. is_nil x.asset) (sym same) ∙ e in
    rw (seed_rows, named) (Memᴰ.head (ap (status_row id ts) same))
seeded-status id ts (p ∷ ps) q (Memᴰ.tail m) e =
    let later = seeded-status id ts ps q m e in
    elim (Bool-cases (is_nil p.asset)) [
      | inl k ↦ rw (seed_rows, k) later
      | inr k ↦ rw (seed_rows, k) (Memᴰ.tail later)
    ]

-- The names of the pools are different.
abbrev pub AllNamedApart : List ThorNode.Pool → Type 0
AllNamedApart ps = (p q : ThorNode.Pool) → Memᴰ p ps → Memᴰ q ps → p.asset ≡ q.asset → p ≡ q

-- The depth of a pool by the amounts that the node gives, each in the field it is meant for.
abbrev pub said : ThorNode.Pool → Snapshot
said p = record {
  asset_e8 = e8 p.balance_asset;
  rune_e8 = e8 p.balance_rune;
  synth_e8 = e8 p.synth_supply;
  units = e8 p.pool_units;
}

-- What a seed leaves for a pool at a time not before it: its amounts are the pool's state, its
-- status is stored at the height, and the pool without a name has no row.
pub record IsSeeded (db : Rows) (q : ThorNode.Pool) (height timestamp : ℤ) (t : Second)
    : Type 0 where
  pub depth : snapshot_at db q.asset t ≡ said q
  pub status :
      Memᴰ
        (record {
          event_id = first_id_at_height height;
          block_timestamp = timestamp;
          content =
              Recorded.pool (record { asset = q.asset; status = to_ascii_lowercase q.status });
        })
        db.events
  pub nameless : snapshot_at db [] t ≡ no_depth

module _ (p : ThorNode.Pool) (ps : List ThorNode.Pool) (height timestamp : ℤ) (t : Second) where
  abbrev database : Rows
  unfolding seed_pool_depths
  database = (seed_pool_depths (some (p ∷ ps)) true height timestamp no_rows).0

  depth_lem :
      (q : ThorNode.Pool)
      → AllNamedApart (p ∷ ps)
      → Memᴰ q (p ∷ ps)
      → is_nil q.asset ≡ false
      → leb_ℤ timestamp (to_nano t) ≡ true
      → snapshot_at database q.asset t ≡ said q
  unfolding seed_pool_depths
  depth_lem q apart m named later =
      let id = first_id_at_height height in
      let stored = seeded-Memᴰ id timestamp (p ∷ ps) q m named in
      let fits : is_row_until q.asset (to_nano t) (depth_row timestamp q) ≡ true =
        and_true _ _ ((text_eq_iff q.asset q.asset).1 refl) later in
      elim (snapshot_at-IsStateAt database q.asset t) [
        | inl (nothing, e) ↦ absurd (true≢false (sym fits ∙ nothing (depth_row timestamp q) stored))
        | inr (d, k, matches, above, e) ↦
            let (x, n, same, f) = Memᴰ-seeded id timestamp (p ∷ ps) d k in
            let name : x.asset ≡ q.asset =
              (text_eq_iff x.asset q.asset).0
                (ap (λ z. text_eq z.pool q.asset) (sym same) ∙ and_left _ _ matches) in
            e ∙ ap row_depth (same ∙ ap (depth_row timestamp) (apart x q n m name))
      ]

  nameless_lem : snapshot_at database [] t ≡ no_depth
  unfolding seed_pool_depths
  nameless_lem = elim (snapshot_at-IsStateAt database [] t) [
    | inl (nothing, e) ↦ e
    | inr (d, k, matches, above, e) ↦
        let (x, n, same, f) = Memᴰ-seeded (first_id_at_height height) timestamp (p ∷ ps) d k in
        let name : x.asset ≡ [] =
          (text_eq_iff x.asset []).0
            (ap (λ z. text_eq z.pool []) (sym same) ∙ and_left _ _ matches) in
        absurd (true≢false (ap is_nil (sym name) ∙ f))
  ]

-- After a seed of an empty database that commits, with pools whose names are different, and at any
-- time not before the seed: the state of each pool that has a name has the node's balance of the
-- asset, balance of RUNE, supply of synths and units in these fields; the pool's status in lower
-- case is stored under the first identifier of the height; and no state is found under the empty
-- name.
pub seed_pool_depths-snapshot_at :
    (p : ThorNode.Pool) (ps : List ThorNode.Pool) (q : ThorNode.Pool) (height timestamp : ℤ)
    (t : Second)
    → AllNamedApart (p ∷ ps)
    → Memᴰ q (p ∷ ps)
    → is_nil q.asset ≡ false
    → leb_ℤ timestamp (to_nano t) ≡ true
    → IsSeeded
        (seed_pool_depths (some (p ∷ ps)) true height timestamp no_rows).0
        q
        height
        timestamp
        t
unfolding seed_pool_depths
seed_pool_depths-snapshot_at p ps q height timestamp t apart m named later = record {
  depth = depth_lem p ps height timestamp t q apart m named later;
  status = seeded-status (first_id_at_height height) timestamp (p ∷ ps) q m named;
  nameless = nameless_lem p ps height timestamp t;
}
