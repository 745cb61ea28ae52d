-- ===== src/Common/Int/Order.antt =====
-- The tests of signed integers: equality and the orders.
use midgard_rs.Common.{ℕ, ◌<◌, ◌≤◌, ◌≡◌, true, false, arith}
use midgard_rs.Common.Int.{ℤ, pos, eqb_ℤ, ltb_ℤ, leb_ℤ}

pub eqb_self : (a : ℤ) → eqb_ℤ a a ≡ true
eqb_self a = ground arith

pub eqb-eq : (a b : ℤ) → eqb_ℤ a b ≡ true → a ≡ b
eqb-eq a b h = ground arith

pub eqb-ne : (k a b : ℤ) → eqb_ℤ k a ≡ true → eqb_ℤ a b ≡ false → eqb_ℤ k b ≡ false
eqb-ne k a b h g = ground arith

pub pos-ne : (a b : ℕ) → a < b → eqb_ℤ (pos a) (pos b) ≡ false
pos-ne a b h = ground arith

pub le_self : (a : ℤ) → leb_ℤ a a ≡ true
le_self a = ground arith

pub le_trans : (a b c : ℤ) → leb_ℤ a b ≡ true → leb_ℤ b c ≡ true → leb_ℤ a c ≡ true
le_trans a b c h k = ground arith

pub lt-le : (a b : ℤ) → ltb_ℤ a b ≡ true → leb_ℤ a b ≡ true
lt-le a b h = ground arith

pub not_lt-le : (a b : ℤ) → ltb_ℤ a b ≡ false → leb_ℤ b a ≡ true
not_lt-le a b h = ground arith

pub ltb-pos : (a b : ℕ) → ltb_ℤ (pos a) (pos b) ≡ true → a < b
ltb-pos a b h = ground arith

pub ltb-pos_false : (a b : ℕ) → ltb_ℤ (pos a) (pos b) ≡ false → b ≤ a
ltb-pos_false a b h = ground arith

pub ltb-pos_lt : (a b : ℕ) → a < b → ltb_ℤ (pos a) (pos b) ≡ true
ltb-pos_lt a b h = ground arith

pub ltb-pos_ge : (a b : ℕ) → b ≤ a → ltb_ℤ (pos a) (pos b) ≡ false
ltb-pos_ge a b h = ground arith
