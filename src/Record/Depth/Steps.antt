-- ===== src/Record/Depth/Steps.antt =====
-- crates/midgard-record/src/depth.rs: an event changes the tracker by writes to single pools, each
-- of which adds exact amounts and wraps.
use midgard_rs.Common.{
  Bool, true, false, ◌≡◌, refl, inl, inr, Bool-cases, ◌∙◌, List, [], ◌∷◌, ◌++◌, if◌then◌else◌,
}
use midgard_rs.Common.Int.{ℤ, pos, ◌+ℤ◌, eqb_ℤ}
use midgard_rs.Common.Word.{wrap, add_i64, sub_i64, neg_i64}
use midgard_rs.Common.Word.Congruence.{add_i64-neg_i64}
use midgard_rs.Common.Text.{Text}
use midgard_rs.Core.Asset.{coin_type, is_rune}
use midgard_rs.Record.Rows as Rows
use midgard_rs.Record.Rows.{Recorded, Swap}
use midgard_rs.Record.Depth.{
  Depth, DepthTracker, touch, is_synth, swap_write, apply, apply_swap, add_both, add_rune,
  add_asset, stake_write, withdraw_write, signed, gas_write, deduct_write, apply_rewards,
  pool_of_asset, apply_all,
}
use midgard_rs.Record.Depth.Ledger.{
  plus, wrapped, IsDepth, amounts, minus, swap_amounts, stake_amounts, withdraw_amounts,
  exact_signed, rewards_bookings, bookings, all_bookings,
}
use midgard_rs.Record.Depth.Sums.{depth_eq, same, sub_lem, sub_add_lem}

-- A write that adds exact amounts and wraps.
abbrev pub IsExact : (Depth → Depth) → Depth → Type 0
IsExact w c = (d : Depth) → IsDepth d → w d ≡ wrapped (plus d c)

-- The writes from one tracker to another, with the pool and the amounts of each.
pub data Steps (u : DepthTracker) : DepthTracker → List (Text × Depth) → Type 0 where
  done : Steps u u []
  write :
      (t : DepthTracker) (p : Text) (w : Depth → Depth) (c : Depth) (bs : List (Text × Depth))
      → IsExact w c
      → Steps u (touch p w t) bs
      → Steps u t ((p, c) ∷ bs)

touch_once :
    (p : Text) (w : Depth → Depth) (c : Depth)
    → IsExact w c
    → (t : DepthTracker) → Steps (touch p w t) t ((p, c) ∷ [])
touch_once p w c h t = write t p w c [] h done

append-Steps :
    {u v t : DepthTracker} {bs cs : List (Text × Depth)}
    → Steps u t bs
    → Steps v u cs
    → Steps v t (bs ++ cs)
append-Steps done k = k
append-Steps {cs = cs} (write t p w c bs e h) k = write t p w c (bs ++ cs) e (append-Steps h k)

-- Each write of the tracker is exact.
add_both-IsExact : (a r : ℤ) → IsExact (add_both a r) (amounts a r)
unfolding wrapped plus add_i64
add_both-IsExact a r d (ha, hr, hs, hu) = depth_eq refl refl (same d.synth_e8 hs) (same d.units hu)

add_rune-IsExact : (r : ℤ) → IsExact (add_rune r) (amounts (pos 0) r)
unfolding wrapped plus add_i64
add_rune-IsExact r d (ha, hr, hs, hu) =
    depth_eq (same d.asset_e8 ha) refl (same d.synth_e8 hs) (same d.units hu)

add_asset-IsExact : (a : ℤ) → IsExact (add_asset a) (amounts a (pos 0))
unfolding wrapped plus add_i64
add_asset-IsExact a d (ha, hr, hs, hu) =
    depth_eq refl (same d.rune_e8 hr) (same d.synth_e8 hs) (same d.units hu)

deduct_write-IsExact : (n : ℤ) → IsExact (deduct_write n) (amounts (pos 0) (minus n))
unfolding wrapped plus
deduct_write-IsExact n d (ha, hr, hs, hu) =
    depth_eq (same d.asset_e8 ha) (sub_lem d.rune_e8 n) (same d.synth_e8 hs) (same d.units hu)

gas_write-IsExact : (g : Rows.Gas) → IsExact (gas_write g) (amounts (minus g.asset_e8) g.rune_e8)
unfolding wrapped plus add_i64
gas_write-IsExact g d (ha, hr, hs, hu) =
    depth_eq (sub_lem d.asset_e8 g.asset_e8) refl (same d.synth_e8 hs) (same d.units hu)

signed_lem : (b : Bool) (x n : ℤ) → add_i64 x (signed b n) ≡ wrap (x +ℤ exact_signed b n)
unfolding add_i64
signed_lem true x n = refl
signed_lem false x n =
    let e : add_i64 x (neg_i64 n) ≡ sub_i64 x n = add_i64-neg_i64 x n in e ∙ sub_lem x n

change-IsExact :
    (a r : Bool) (x y : ℤ)
    → IsExact (add_both (signed a x) (signed r y)) (amounts (exact_signed a x) (exact_signed r y))
unfolding wrapped plus
change-IsExact a r x y d (ha, hr, hs, hu) =
    depth_eq (signed_lem a d.asset_e8 x) (signed_lem r d.rune_e8 y) (same d.synth_e8 hs)
      (same d.units hu)

slash-IsExact :
    (b : Bool) (n : ℤ)
    → IsExact
        (if b then add_rune n else add_asset n)
        (if b then amounts (pos 0) n else amounts n (pos 0))
slash-IsExact true n = add_rune-IsExact n
slash-IsExact false n = add_asset-IsExact n

swap_write-IsExact : (s : Swap) → IsExact (swap_write s) (swap_amounts s)
unfolding wrapped plus add_i64 swap_write
swap_write-IsExact s d (ha, hr, hs, hu) = elim (Bool-cases (is_synth (coin_type s.to_asset))) [
  | inl e ↦ rw e (depth_eq (same d.asset_e8 ha) refl refl (same d.units hu))
  | inr e ↦ elim (Bool-cases (is_synth (coin_type s.from_asset))) [
    | inl f ↦
        rw (e, f)
          (depth_eq (same d.asset_e8 ha) (sub_lem d.rune_e8 s.to_e8) (sub_lem d.synth_e8 s.from_e8)
            (same d.units hu))
    | inr f ↦ elim (Bool-cases (is_rune s.from_asset)) [
      | inl g ↦
          rw (e, f, g)
            (depth_eq (sub_lem d.asset_e8 s.to_e8) refl (same d.synth_e8 hs) (same d.units hu))
      | inr g ↦
          rw (e, f, g)
            (depth_eq refl (sub_lem d.rune_e8 s.to_e8) (same d.synth_e8 hs) (same d.units hu))
    ]
  ]
]

stake_write-IsExact : (s : Rows.Stake) → IsExact (stake_write s) (stake_amounts s)
unfolding wrapped plus add_i64
stake_write-IsExact s d (ha, hr, hs, hu) = depth_eq refl refl (same d.synth_e8 hs) refl

withdraw_write-IsExact : (w : Rows.Withdraw) → IsExact (withdraw_write w) (withdraw_amounts w)
unfolding wrapped plus
withdraw_write-IsExact w d (ha, hr, hs, hu) =
    depth_eq (sub_lem d.asset_e8 w.emit_asset_e8)
      (sub_add_lem d.rune_e8 w.emit_rune_e8 w.imp_loss_protection_e8) (same d.synth_e8 hs)
      (sub_lem d.units w.stake_units)

rewards-Steps :
    (ps : List (Text × ℤ)) (t : DepthTracker) → Steps (apply_rewards ps t) t (rewards_bookings ps)
rewards-Steps [] t = done
rewards-Steps ((p, n) ∷ ps) t =
    write t p (add_rune n) (amounts (pos 0) n) (rewards_bookings ps) (add_rune-IsExact n)
      (rewards-Steps ps (touch p (add_rune n) t))

fee-Steps :
    (b : Bool) (p : Text) (n : ℤ) (t : DepthTracker)
    → Steps
        (if b then t else touch p (deduct_write n) t)
        t
        (if b then [] else (p, amounts (pos 0) (minus n)) ∷ [])
fee-Steps true p n t = done
fee-Steps false p n t =
    touch_once p (deduct_write n) (amounts (pos 0) (minus n)) (deduct_write-IsExact n) t

-- Every event.
apply-Steps : (r : Recorded) (t : DepthTracker) → Steps (apply r t) t (bookings r)
unfolding apply apply_swap bookings
apply-Steps (Rows.swap s) t =
    touch_once s.pool (swap_write s) (swap_amounts s) (swap_write-IsExact s) t
apply-Steps (Rows.stake s) t =
    touch_once s.pool (stake_write s) (stake_amounts s) (stake_write-IsExact s) t
apply-Steps (Rows.withdraw w) t =
    touch_once w.pool (withdraw_write w) (withdraw_amounts w) (withdraw_write-IsExact w) t
apply-Steps (Rows.pool p) t = done
apply-Steps (Rows.fee f) t =
    fee-Steps (eqb_ℤ f.pool_deduct (pos 0)) (pool_of_asset f.asset) f.pool_deduct t
apply-Steps (Rows.gas g) t =
    touch_once (pool_of_asset g.asset) (gas_write g) (amounts (minus g.asset_e8) g.rune_e8)
      (gas_write-IsExact g) t
apply-Steps (Rows.rewards r) t = rewards-Steps r.per_pool t
apply-Steps (Rows.outbound r) t = done
apply-Steps (Rows.refund r) t = done
apply-Steps (Rows.add a) t =
    touch_once a.pool (add_both a.asset_e8 a.rune_e8) (amounts a.asset_e8 a.rune_e8)
      (add_both-IsExact a.asset_e8 a.rune_e8) t
apply-Steps (Rows.transfer r) t = done
apply-Steps (Rows.bond r) t = done
apply-Steps (Rows.pending_liquidity r) t = done
apply-Steps (Rows.errata e) t =
    touch_once e.asset (add_both e.asset_e8 e.rune_e8) (amounts e.asset_e8 e.rune_e8)
      (add_both-IsExact e.asset_e8 e.rune_e8) t
apply-Steps (Rows.set_mimir r) t = done
apply-Steps (Rows.mint_burn r) t = done
apply-Steps (Rows.pool_balance_change c) t =
    touch_once c.asset (add_both (signed c.asset_add c.asset_amt) (signed c.rune_add c.rune_amt))
      (amounts (exact_signed c.asset_add c.asset_amt) (exact_signed c.rune_add c.rune_amt))
      (change-IsExact c.asset_add c.rune_add c.asset_amt c.rune_amt) t
apply-Steps (Rows.slash s) t =
    touch_once s.pool (if is_rune s.asset then add_rune s.asset_e8 else add_asset s.asset_e8)
      (if is_rune s.asset then amounts (pos 0) s.asset_e8 else amounts s.asset_e8 (pos 0))
      (slash-IsExact (is_rune s.asset) s.asset_e8) t
apply-Steps (Rows.switch r) t = done
apply-Steps (Rows.active_vault r) t = done
apply-Steps (Rows.inactive_vault r) t = done
apply-Steps (Rows.node_status r) t = done

pub apply_all-Steps :
    (rs : List Recorded) (t : DepthTracker) → Steps (apply_all rs t) t (all_bookings rs)
apply_all-Steps [] t = done
apply_all-Steps (r ∷ rs) t = append-Steps (apply-Steps r t) (apply_all-Steps rs (apply r t))
