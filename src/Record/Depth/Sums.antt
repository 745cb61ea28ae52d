-- ===== src/Record/Depth/Sums.antt =====
-- Sums of balances, exact and wrapped.
use midgard_rs.Common.{◌≡◌, ap, inl, inr, ◌∙◌}
use midgard_rs.Common.Int.{ℤ, pos, ◌+ℤ◌, ◌-ℤ◌, int_laws, one_sign}
use midgard_rs.Common.Word.{IsI64, wrap, wrap_id, wrap-IsI64, add_i64, sub_i64}
use midgard_rs.Common.Word.Congruence.{add_i64-wrap}
use midgard_rs.Record.Depth.{Depth, no_depth}
use midgard_rs.Record.Depth.Ledger.{plus, wrapped, IsDepth, minus}

-- Sums of one balance.
pub add_zero : (a : ℤ) → a +ℤ pos 0 ≡ a
add_zero a = elim (one_sign a) [ inl h ↦ omega int_laws | inr h ↦ omega int_laws ]

pub zero_add : (a : ℤ) → pos 0 +ℤ a ≡ a
zero_add a = elim (one_sign a) [ inl h ↦ omega int_laws | inr h ↦ omega int_laws ]

pub add_assoc : (a b c : ℤ) → (a +ℤ b) +ℤ c ≡ a +ℤ (b +ℤ c)
add_assoc a b c = omega int_laws

pub add_minus : (a b : ℤ) → a -ℤ b ≡ a +ℤ minus b
add_minus a b = omega int_laws

pub sub_then_add : (a b c : ℤ) → (a -ℤ b) +ℤ c ≡ a +ℤ (c -ℤ b)
sub_then_add a b c = omega int_laws

pub same : (a : ℤ) → IsI64 a → a ≡ wrap (a +ℤ pos 0)
same a h = rw (add_zero a, wrap_id a h)

pub sub_lem : (a b : ℤ) → sub_i64 a b ≡ wrap (a +ℤ minus b)
unfolding sub_i64
sub_lem a b = rw (add_minus a b)

pub sub_add_lem : (a b c : ℤ) → add_i64 (sub_i64 a b) c ≡ wrap (a +ℤ (c -ℤ b))
unfolding sub_i64
sub_add_lem a b c = rw (add_i64-wrap (a -ℤ b) c, sub_then_add a b c)

-- Equal balances are equal one by one.
pub depth_eq :
    {a b : Depth}
    → a.asset_e8 ≡ b.asset_e8
    → a.rune_e8 ≡ b.rune_e8
    → a.synth_e8 ≡ b.synth_e8
    → a.units ≡ b.units
    → a ≡ b
depth_eq ea er es eu =
    λ i. record { asset_e8 = ea i; rune_e8 = er i; synth_e8 = es i; units = eu i }

pub wrapped-plus-no_depth : (d : Depth) → IsDepth d → d ≡ wrapped (plus d no_depth)
unfolding wrapped plus
wrapped-plus-no_depth d (ha, hr, hs, hu) =
    depth_eq (same d.asset_e8 ha) (same d.rune_e8 hr) (same d.synth_e8 hs) (same d.units hu)

pub wrapped-IsDepth : (d : Depth) → IsDepth (wrapped d)
unfolding wrapped
wrapped-IsDepth d =
    (wrap-IsI64 d.asset_e8, wrap-IsI64 d.rune_e8, wrap-IsI64 d.synth_e8, wrap-IsI64 d.units)

pub twice : (x a b : ℤ) → wrap (wrap (x +ℤ a) +ℤ b) ≡ wrap (x +ℤ (a +ℤ b))
unfolding add_i64
twice x a b =
    let e : add_i64 (wrap (x +ℤ a)) b ≡ wrap (x +ℤ a +ℤ b) = add_i64-wrap (x +ℤ a) b in
    e ∙ ap wrap (add_assoc x a b)

pub wrapped-plus :
    (d a b : Depth) → wrapped (plus (wrapped (plus d a)) b) ≡ wrapped (plus d (plus a b))
unfolding wrapped plus
wrapped-plus d a b =
    depth_eq (twice d.asset_e8 a.asset_e8 b.asset_e8) (twice d.rune_e8 a.rune_e8 b.rune_e8)
      (twice d.synth_e8 a.synth_e8 b.synth_e8) (twice d.units a.units b.units)

pub plus-no_depth : (c : Depth) → plus c no_depth ≡ c
unfolding plus
plus-no_depth c =
    depth_eq (add_zero c.asset_e8) (add_zero c.rune_e8) (add_zero c.synth_e8) (add_zero c.units)

-- A write that adds exact amounts and wraps.
abbrev IsExact : (Depth → Depth) → Depth → Type 0
IsExact w c = (d : Depth) → IsDepth d → w d ≡ wrapped (plus d c)

pub no_depth-plus : (c : Depth) → plus no_depth c ≡ c
unfolding plus
no_depth-plus c =
    depth_eq (zero_add c.asset_e8) (zero_add c.rune_e8) (zero_add c.synth_e8) (zero_add c.units)

pub plus_assoc : (a b c : Depth) → plus (plus a b) c ≡ plus a (plus b c)
unfolding plus
plus_assoc a b c =
    depth_eq (add_assoc a.asset_e8 b.asset_e8 c.asset_e8) (add_assoc a.rune_e8 b.rune_e8 c.rune_e8)
      (add_assoc a.synth_e8 b.synth_e8 c.synth_e8) (add_assoc a.units b.units c.units)
