-- ===== src/Common/Word.antt =====
-- i64: integers that wrap round at 2 ^ 63, which is what a release build of the program does.
pub mod Congruence
use midgard_rs.Common.Tests.{ltb, if◌then◌else◌}
use midgard_rs.Common.Int.{ℤ, pos, negsuc, pos_part, neg_part, ◌+ℤ◌, ◌-ℤ◌, ◌*ℤ◌, rem_euclid}
use Prim.Native.Nat.{ℕ, ◌+◌, ◌*◌, ◌-◌, ◌^◌, ◌≤◌, ◌<◌}
use mathlib.Core.Path.{◌≡◌}
use native.Mathlib.Omega.{arith}

abbrev pub IsI64 : ℤ → Type 0
IsI64 z = (pos_part z < 2 ^ 63) × (neg_part z ≤ 2 ^ 63)

abbrev signed : ℕ → ℤ
signed r = if ltb r (2 ^ 63) then pos r else negsuc (2 ^ 64 - 1 - r)

unfoldable pub wrap : ℤ → ℤ
wrap z = signed (rem_euclid z (2 ^ 64))

unfoldable pub add_i64 : ℤ → ℤ → ℤ
add_i64 a b = wrap (a +ℤ b)

unfoldable pub sub_i64 : ℤ → ℤ → ℤ
sub_i64 a b = wrap (a -ℤ b)

-- The product with a constant of the program.
unfoldable pub mul_i64 : ℤ → ℕ → ℤ
mul_i64 a n = wrap (a *ℤ n)

unfoldable pub neg_i64 : ℤ → ℤ
neg_i64 a = sub_i64 (pos 0) a

pub wrap_id : (z : ℤ) → IsI64 z → wrap z ≡ z
unfolding wrap rem_euclid
wrap_id z h = ground arith

pub wrap-IsI64 : (z : ℤ) → IsI64 (wrap z)
unfolding wrap rem_euclid
wrap-IsI64 z = ground arith

-- Numbers that stay in range.
pub add_i64-pos : (a b : ℕ) → a + b < 2 ^ 63 → add_i64 (pos a) (pos b) ≡ pos (a + b)
unfolding add_i64 wrap rem_euclid ◌+ℤ◌
add_i64-pos a b h = ground arith

pub mul_i64-pos : (a n : ℕ) → a * n < 2 ^ 63 → mul_i64 (pos a) n ≡ pos (a * n)
unfolding mul_i64 wrap rem_euclid ◌*ℤ◌
mul_i64-pos a n h = ground arith

pub sub_i64-pos : (a b : ℕ) → b ≤ a → a < 2 ^ 63 → sub_i64 (pos a) (pos b) ≡ pos (a - b)
unfolding sub_i64 wrap rem_euclid ◌-ℤ◌
sub_i64-pos a b h k = ground arith
