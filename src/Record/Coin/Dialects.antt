-- ===== src/Record/Coin/Dialects.antt =====
-- crates/midgard-record/src/coin.rs: no text is a coin in both dialects.
use midgard_rs.Common.{
  ℕ, Bool, true, false, ◌||◌, ◌≡◌, refl, ◌∙◌, Bool-cases, subst, inl, inr, ◌⊎◌, Option, none, some,
  [], ◌∷◌, err, to_option, ok_or, ◌>>=◌, if◌then◌else◌, arith,
}
use midgard_rs.Common.Int.{ℤ}
use midgard_rs.Common.Text.{Text, split_once, is_whitespace, is_digit, is_nil, trim, parse_i64}
use midgard_rs.Record.Coin.{
  Coin, shape, amount, parse_coin, coin_trimmed, parse_cosmos_coin, cosmos_trimmed, span_digits,
  any_whitespace,
}

-- Only a text with white space in it is split by it.
split_once-none : (s : Text) → any_whitespace s ≡ false → split_once is_whitespace s ≡ none
unfolding split_once any_whitespace
split_once-none [] h = refl
split_once-none (c ∷ s) h = elim (Bool-cases (is_whitespace c)) [
  | inl e ↦ let bad : true ≡ false = subst (λ b. (b || any_whitespace s) ≡ false) e h in cc
  | inr e ↦ rw (e, split_once-none s (ground arith)) refl
]

digit_lem : (c : ℕ) → is_digit c ≡ true → is_whitespace c ≡ false
unfolding is_digit is_whitespace
digit_lem c h = ground arith

-- The digits in front hold no white space.
any_whitespace-span_digits : (s : Text) → any_whitespace (span_digits s).1 ≡ any_whitespace s
unfolding any_whitespace span_digits
any_whitespace-span_digits [] = refl
any_whitespace-span_digits (c ∷ s) = elim (Bool-cases (is_digit c)) [
  | inl e ↦ rw (e, digit_lem c e) (any_whitespace-span_digits s)
  | inr e ↦ rw e refl
]

coin_trimmed-fails : (s : Text) → any_whitespace s ≡ false → to_option (coin_trimmed s) ≡ none
unfolding coin_trimmed
coin_trimmed-fails s h = rw (split_once-none s h) refl

-- The tests of `parse_cosmos_coin`, with white space in the denomination.
refused :
    (a b c : Bool) (n : Option ℤ) (s : Text)
    → to_option {A = Coin} (
        if a
        then err (shape s)
        else if b
        then err (shape s)
        else if c
        then err (amount s)
        else (ok_or n (amount s) >>= λ m. err (shape s)))
      ≡ none
refused true b c n s = refl
refused false true c n s = refl
refused false false true n s = refl
refused false false false none s = refl
refused false false false (some m) s = refl

cosmos_trimmed-fails : (s : Text) → any_whitespace s ≡ true → to_option (cosmos_trimmed s) ≡ none
unfolding cosmos_trimmed
cosmos_trimmed-fails s h =
    let e : any_whitespace (span_digits s).1 ≡ true = any_whitespace-span_digits s ∙ h in
    rw e (
      refused (is_nil s) (is_nil (span_digits s).1) (is_nil (span_digits s).0)
        (parse_i64 (span_digits s).0) s)

-- No text is a coin in both dialects: `parse_coin` or `parse_cosmos_coin` refuses it.
pub parse_coin-or-parse_cosmos_coin :
    (s : Text) → (to_option (parse_coin s) ≡ none) ⊎ (to_option (parse_cosmos_coin s) ≡ none)
unfolding parse_coin parse_cosmos_coin
parse_coin-or-parse_cosmos_coin s = elim (Bool-cases (any_whitespace (trim s))) [
  | inl e ↦ inr (cosmos_trimmed-fails (trim s) e)
  | inr e ↦ inl (coin_trimmed-fails (trim s) e)
]
