-- ===== src/Common/Word/Congruence.antt =====
-- Sums of wrapped numbers are the sums of the numbers, wrapped once.
use midgard_rs.Common.Int.{
  ℤ, pos_part, neg_part, ◌+ℤ◌, ◌-ℤ◌, rem_euclid, div_euclid, int_laws, div_euclid_parts,
  rem_euclid-lt, pos,
}
use midgard_rs.Common.Word.{wrap, add_i64, sub_i64, neg_i64}
use Prim.Native.Nat.{◌+◌, ◌*◌, ◌^◌}
use mathlib.Core.Path.{◌≡◌}
use native.Mathlib.Omega.{arith}

-- x and y differ by q times 2 ^ 64.
abbrev IsShift : ℤ → ℤ → ℤ → Type 0
IsShift x y q =
    pos_part x + neg_part y + neg_part q * 2 ^ 64 ≡ neg_part x + pos_part y + pos_part q * 2 ^ 64

rem_euclid-shift : (x y q : ℤ) → IsShift x y q → rem_euclid x (2 ^ 64) ≡ rem_euclid y (2 ^ 64)
rem_euclid-shift x y q h = omega (
  arith,
  div_euclid_parts x (2 ^ 64) (omega arith),
  div_euclid_parts y (2 ^ 64) (omega arith),
  rem_euclid-lt x (2 ^ 64) (omega arith),
  rem_euclid-lt y (2 ^ 64) (omega arith),
)

wrap-shift : (x y q : ℤ) → IsShift x y q → wrap x ≡ wrap y
unfolding wrap
wrap-shift x y q h = rw (rem_euclid-shift x y q h)

rem_euclid-wrap : (z : ℤ) → rem_euclid (wrap z) (2 ^ 64) ≡ rem_euclid z (2 ^ 64)
unfolding wrap rem_euclid
rem_euclid-wrap z = ground arith

-- `wrap z` is z up to a multiple of 2 ^ 64.
wrap_lem : (z : ℤ) → (q : ℤ) × IsShift (wrap z) z q
wrap_lem z = (
  div_euclid (wrap z) (2 ^ 64) -ℤ div_euclid z (2 ^ 64),
  omega (
    int_laws,
    rem_euclid-wrap z,
    div_euclid_parts z (2 ^ 64) (omega arith),
    div_euclid_parts (wrap z) (2 ^ 64) (omega arith),
  ),
)

pub add_i64-wrap : (a b : ℤ) → add_i64 (wrap a) b ≡ wrap (a +ℤ b)
unfolding add_i64
add_i64-wrap a b =
    let (q, h) = wrap_lem a in wrap-shift (wrap a +ℤ b) (a +ℤ b) q (omega (int_laws, h))

pub sub_i64-wrap : (a b : ℤ) → sub_i64 (wrap a) b ≡ wrap (a -ℤ b)
unfolding sub_i64
sub_i64-wrap a b =
    let (q, h) = wrap_lem a in wrap-shift (wrap a -ℤ b) (a -ℤ b) q (omega (int_laws, h))

-- A negation that wraps adds what an exact one adds.
pub add_i64-neg_i64 : (a b : ℤ) → add_i64 a (neg_i64 b) ≡ sub_i64 a b
unfolding add_i64 sub_i64 neg_i64
add_i64-neg_i64 a b =
    let (q, h) = wrap_lem (pos 0 -ℤ b) in
    wrap-shift (a +ℤ wrap (pos 0 -ℤ b)) (a -ℤ b) q (omega (int_laws, h))
