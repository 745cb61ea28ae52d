-- ===== src/Api/Depths/Closing.antt =====
-- crates/midgard-api/src/handlers/depths.rs: each bucket reports the state of the pool at its end.
use midgard_rs.Common.{
  ◌≡◌, refl, sym, ap, subst, ◌∙◌, ◌⊎◌, Bool, true, false, ◌&&◌, Bool-cases, Option-cases, inl, inr,
  Option, none, some, List, [], ◌∷◌, map, ok, >>=-eq-ok, ok-injective,
}
use mathlib.Core.List.{Memᴰ}
use midgard_rs.Common.Int.{ℤ, pos, leb_ℤ, ltb_ℤ}
use midgard_rs.Common.Text.{Text, text_eq}
use midgard_rs.Common.Int.Order.{le_self, le_trans, lt-le, not_lt-le}
use midgard_rs.Core.Time.{Second, to_nano}
use midgard_rs.Cursor.{BlockCursor}
use midgard_rs.Record.Writer.{Rows, PendingDepth}
use midgard_rs.Buckets.Generate.{Buckets}
use midgard_rs.Api.Depths.{
  Snapshot, rows_until, newer, newest, snapshot_of, snapshot_at, DepthHistoryItem, DepthHistory,
  items, history_buckets, depth_history,
}

-- What is reported where there is no row, what a row reports, and the item of a bucket.
abbrev pub no_depth : Snapshot
no_depth = record { asset_e8 = pos 0; rune_e8 = pos 0; synth_e8 = pos 0; units = pos 0 }

abbrev pub row_depth : PendingDepth → Snapshot
row_depth d = record {
  asset_e8 = d.depth.asset_e8;
  rune_e8 = d.depth.rune_e8;
  synth_e8 = d.depth.synth_e8;
  units = d.depth.units;
}

abbrev pub reported : Second → Second → Snapshot → DepthHistoryItem
reported a b s = record {
  start_time = a;
  end_time = b;
  asset_depth = s.asset_e8;
  rune_depth = s.rune_e8;
  liquidity_units = s.units;
  synth_units = pos 0;
  synth_supply = s.synth_e8;
  units = s.units;
}

-- A row of the pool that is not after a time.
abbrev pub is_row_until : Text → ℤ → PendingDepth → Bool
is_row_until pool ts d = text_eq d.pool pool && leb_ℤ d.block_timestamp ts

-- The depth of the newest row of the pool that is not after a time, or nothing where there is none.
abbrev pub IsStateAt : Rows → Text → ℤ → Snapshot → Type 0
IsStateAt db pool ts s =
    (((d : PendingDepth) → Memᴰ d db.depths → is_row_until pool ts d ≡ false) × (s ≡ no_depth))
    ⊎ ((d : PendingDepth) × Memᴰ d db.depths
        × (is_row_until pool ts d ≡ true)
        × ((e : PendingDepth)
            → Memᴰ e db.depths
            → is_row_until pool ts e ≡ true
            → leb_ℤ e.block_timestamp d.block_timestamp ≡ true)
        × (s ≡ row_depth d))

Memᴰ-rows_until :
    (pool : Text) (ts : ℤ) (ds : List PendingDepth) (d : PendingDepth)
    → Memᴰ d (rows_until pool ts ds)
    → Memᴰ d ds × (is_row_until pool ts d ≡ true)
Memᴰ-rows_until pool ts [] d h = elim h [ ]
Memᴰ-rows_until pool ts (x ∷ ds) d h = elim (Bool-cases (is_row_until pool ts x)) [
  | inl e ↦ at_front e (Memᴰ-rows_until pool ts ds d) (rw (rows_until, e) at h)
  | inr e ↦ let (m, k) = Memᴰ-rows_until pool ts ds d (rw (rows_until, e) at h) in (Memᴰ.tail m, k)
]
  where
    at_front :
        is_row_until pool ts x ≡ true
        → (Memᴰ d (rows_until pool ts ds) → Memᴰ d ds × (is_row_until pool ts d ≡ true))
        → Memᴰ d (x ∷ rows_until pool ts ds)
        → Memᴰ d (x ∷ ds) × (is_row_until pool ts d ≡ true)
    at_front e later (Memᴰ.head q) = (Memᴰ.head q, ap (is_row_until pool ts) q ∙ e)
    at_front e later (Memᴰ.tail m) = let (n, k) = later m in (Memᴰ.tail n, k)

rows_until-Memᴰ :
    (pool : Text) (ts : ℤ) (ds : List PendingDepth) (d : PendingDepth)
    → Memᴰ d ds
    → is_row_until pool ts d ≡ true
    → Memᴰ d (rows_until pool ts ds)
rows_until-Memᴰ pool ts [] d m e = elim m [ ]
rows_until-Memᴰ pool ts (x ∷ ds) d (Memᴰ.head q) e =
    let here : is_row_until pool ts x ≡ true = ap (is_row_until pool ts) (sym q) ∙ e in
    rw (rows_until, here) (Memᴰ.head q)
rows_until-Memᴰ pool ts (x ∷ ds) d (Memᴰ.tail m) e =
    let later = rows_until-Memᴰ pool ts ds d m e in
    elim (Bool-cases (is_row_until pool ts x)) [
      | inl k ↦ rw (rows_until, k) (Memᴰ.tail later)
      | inr k ↦ rw (rows_until, k) later
    ]

-- The newest row is one of them, and none is newer.
abbrev IsNewest : PendingDepth → List PendingDepth → Type 0
IsNewest d ds =
    Memᴰ d ds × ((e : PendingDepth) → Memᴰ e ds → leb_ℤ e.block_timestamp d.block_timestamp ≡ true)

newer-IsNewest :
    (d : PendingDepth) (ds : List PendingDepth) (o : Option PendingDepth)
    → (o ≡ none → ds ≡ [])
    → ((e : PendingDepth) → o ≡ some e → IsNewest e ds)
    → IsNewest (newer d o) (d ∷ ds)
newer-IsNewest d ds none empty h = (Memᴰ.head refl, top)
  where
    top : (e : PendingDepth) → Memᴰ e (d ∷ ds) → leb_ℤ e.block_timestamp d.block_timestamp ≡ true
    top e (Memᴰ.head q) =
        ap (λ x. leb_ℤ x.block_timestamp d.block_timestamp) q ∙ le_self d.block_timestamp
    top e (Memᴰ.tail m) = elim (subst (Memᴰ e) (empty refl) m) [ ]
newer-IsNewest d ds (some f) empty h =
    let (m, above) = h f refl in
    elim (Bool-cases (ltb_ℤ d.block_timestamp f.block_timestamp)) [
      | inl lt ↦ rw (newer, lt) (Memᴰ.tail m, λ e k. in_tail m above lt e k)
      | inr ge ↦ rw (newer, ge) (Memᴰ.head refl, λ e k. in_head above ge e k)
    ]
  where
    in_tail :
        Memᴰ f ds
        → ((e : PendingDepth) → Memᴰ e ds → leb_ℤ e.block_timestamp f.block_timestamp ≡ true)
        → ltb_ℤ d.block_timestamp f.block_timestamp ≡ true
        → (e : PendingDepth) → Memᴰ e (d ∷ ds)
        → leb_ℤ e.block_timestamp f.block_timestamp ≡ true
    in_tail m above lt e (Memᴰ.head q) =
        ap (λ x. leb_ℤ x.block_timestamp f.block_timestamp) q
        ∙ lt-le d.block_timestamp f.block_timestamp lt
    in_tail m above lt e (Memᴰ.tail k) = above e k

    in_head :
        ((e : PendingDepth) → Memᴰ e ds → leb_ℤ e.block_timestamp f.block_timestamp ≡ true)
        → ltb_ℤ d.block_timestamp f.block_timestamp ≡ false
        → (e : PendingDepth) → Memᴰ e (d ∷ ds)
        → leb_ℤ e.block_timestamp d.block_timestamp ≡ true
    in_head above ge e (Memᴰ.head q) =
        ap (λ x. leb_ℤ x.block_timestamp d.block_timestamp) q ∙ le_self d.block_timestamp
    in_head above ge e (Memᴰ.tail k) =
        le_trans e.block_timestamp f.block_timestamp d.block_timestamp (above e k)
          (not_lt-le d.block_timestamp f.block_timestamp ge)

newest-none : (ds : List PendingDepth) → newest ds ≡ none → ds ≡ []
newest-none [] h = refl
newest-none (d ∷ ds) h = cc

newest-IsNewest : (ds : List PendingDepth) (d : PendingDepth) → newest ds ≡ some d → IsNewest d ds
newest-IsNewest [] d h = cc
newest-IsNewest (x ∷ ds) d h =
    subst (λ e. IsNewest e (x ∷ ds)) (some_injective h)
      (newer-IsNewest x ds (newest ds) (newest-none ds) (λ e k. newest-IsNewest ds e k))
  where
    some_injective : {a b : PendingDepth} → some a ≡ some b → a ≡ b
    some_injective e = cc

pub snapshot_at-IsStateAt :
    (db : Rows) (pool : Text) (t : Second) → IsStateAt db pool (to_nano t) (snapshot_at db pool t)
unfolding snapshot_at
snapshot_at-IsStateAt db pool t =
    let ts = to_nano t in
    let rows = rows_until pool ts db.depths in
    elim (Option-cases (newest rows)) [
      | inl e ↦ inl (λ d m. nothing (newest-none rows e) d m, ap snapshot_of e)
      | inr (d, e) ↦
          let (m, above) = newest-IsNewest rows d e in
          let (stored, fits) = Memᴰ-rows_until pool ts db.depths d m in
          inr (
            d,
            stored,
            fits,
            λ x k h. above x (rows_until-Memᴰ pool ts db.depths x k h),
            ap snapshot_of e,
          )
    ]
  where
    nothing :
        rows_until pool (to_nano t) db.depths ≡ []
        → (d : PendingDepth) → Memᴰ d db.depths
        → is_row_until pool (to_nano t) d ≡ false
    nothing empty d m = elim (Bool-cases (is_row_until pool (to_nano t) d)) [
      | inr e ↦ e
      | inl e ↦ elim (subst (Memᴰ d) empty (rows_until-Memᴰ pool (to_nano t) db.depths d m e)) [ ]
    ]

-- The items are the buckets between consecutive boundaries, each with the state at its end.
abbrev pub IsTiled : Rows → Text → List Second → List DepthHistoryItem → Type 0
IsTiled db pool (a ∷ b ∷ bs) (i ∷ is) =
    (i.start_time ≡ a)
    × (i.end_time ≡ b)
    × ((s : Snapshot) × IsStateAt db pool (to_nano b) s × (i ≡ reported a b s))
    × IsTiled db pool (b ∷ bs) is
IsTiled db pool (a ∷ []) [] = Unit
IsTiled db pool [] [] = Unit
IsTiled db pool (a ∷ b ∷ bs) [] = ⊥
IsTiled db pool (a ∷ []) (i ∷ is) = ⊥
IsTiled db pool [] (i ∷ is) = ⊥

items-IsTiled :
    (db : Rows) (pool : Text) (bs : List Second)
    → IsTiled db pool bs (items bs (map (snapshot_at db pool) bs))
items-IsTiled db pool [] = tt
items-IsTiled db pool (a ∷ []) = tt
items-IsTiled db pool (a ∷ b ∷ bs) = (
  refl,
  refl,
  (snapshot_at db pool b, snapshot_at-IsStateAt db pool b, refl),
  items-IsTiled db pool (b ∷ bs),
)

-- A successful depth history has one item for each bucket of the window of the query, from one
-- boundary to the next; an item reports the depth of the newest row of the pool that is not after
-- the end of the bucket, and zeros where there is no such row.
pub depth_history-IsTiled :
    (db : Rows) (cursor : BlockCursor) (pool : Text) (raw : List (Text × Text)) (h : DepthHistory)
    → depth_history db cursor pool raw ≡ ok h
    → (bs : Buckets) × (history_buckets raw cursor ≡ ok bs)
      × IsTiled db pool bs.timestamps h.intervals
unfolding depth_history
depth_history-IsTiled db cursor pool raw h e =
    let (bs, f, g) = >>=-eq-ok (history_buckets raw cursor) _ e in
    (
      bs,
      f,
      subst (λ x. IsTiled db pool bs.timestamps x.intervals) (ok-injective g)
          (items-IsTiled db pool bs.timestamps),
    )
