-- ===== src/Core/Asset/Case.antt =====
-- crates/midgard-core/src/asset.rs: a name in upper case is read as the same asset.
use midgard_rs.Common.{
  ℕ, Bool, true, false, ◌≡◌, refl, ap, Bool-cases, inl, inr, Option, none, some, [], ◌∷◌, ◌++◌,
  ◌==◌, if◌then◌else◌, leb, ◌&&◌, ◌-◌, arith,
}
use midgard_rs.Common.Text.{Text, codes, to_ascii_uppercase, contains, split_once, split}
use midgard_rs.Core.Asset.{parse, of_parts, make, first_part}

abbrev upper : ℕ → ℕ
upper c = if leb b'a' c && leb c b'z' then c - 32 else c

upper-upper : (c : ℕ) → upper (upper c) ≡ upper c
upper-upper c = ground arith

pub to_ascii_uppercase_idem :
    (s : Text) → to_ascii_uppercase (to_ascii_uppercase s) ≡ to_ascii_uppercase s
unfolding to_ascii_uppercase
to_ascii_uppercase_idem [] = refl
to_ascii_uppercase_idem (c ∷ s) = rw (upper-upper c, to_ascii_uppercase_idem s) refl

-- A character that no letter is changed from or to.
abbrev IsMark : ℕ → Type 0
IsMark d = (c : ℕ) → (upper c == d) ≡ (c == d)

slash : IsMark b'/'
slash c = ground arith

tilde : IsMark b'~'
tilde c = ground arith

dot : IsMark b'.'
dot c = ground arith

eq_comm : (a b : ℕ) → (a == b) ≡ (b == a)
eq_comm a b = ground arith

contains-upper : (d : ℕ) → IsMark d → (s : Text) → contains d (to_ascii_uppercase s) ≡ contains d s
unfolding contains to_ascii_uppercase
contains-upper d mark [] = refl
contains-upper d mark (c ∷ s) =
    rw (contains-upper d mark s, eq_comm d (upper c), mark c, eq_comm c d) refl

abbrev both_upper : Option (Text × Text) → Option (Text × Text)
both_upper none = none
both_upper (some (a, b)) = some (to_ascii_uppercase a, to_ascii_uppercase b)

split_once-upper :
    (d : ℕ)
    → IsMark d
    → (s : Text)
    → split_once (λ x. x == d) (to_ascii_uppercase s) ≡ both_upper (split_once (λ x. x == d) s)
unfolding split_once to_ascii_uppercase
split_once-upper d mark [] = refl
split_once-upper d mark (c ∷ s) = elim (Bool-cases (c == d)) [
  | inl e ↦ rw (mark c, e) refl
  | inr e ↦ rw (mark c, e, split_once-upper d mark s) (after (split_once (λ x. x == d) s))
]
  where
    after :
        (o : Option (Text × Text))
        → (elim (both_upper o) [ none ↦ none | some (a, b) ↦ some (upper c ∷ a, b) ])
          ≡ both_upper (elim o [ none ↦ none | some (a, b) ↦ some (c ∷ a, b) ])
    after none = refl
    after (some p) = refl

of_parts-upper :
    (s : Text) (o : Option (Text × Text)) (is_synth is_trade : Bool)
    → of_parts (to_ascii_uppercase s) (both_upper o) is_synth is_trade
      ≡ of_parts s o is_synth is_trade
of_parts-upper s none is_synth is_trade = rw (to_ascii_uppercase_idem s) refl
of_parts-upper s (some (a, b)) is_synth is_trade =
    rw (to_ascii_uppercase_idem a, to_ascii_uppercase_idem b) refl

pub parse-upper : (s : Text) → parse (to_ascii_uppercase s) ≡ parse s
unfolding parse
parse-upper s =
    rw
      (
        contains-upper b'/' slash s,
        contains-upper b'~' tilde s,
        split_once-upper b'/' slash s,
        split_once-upper b'~' tilde s,
        split_once-upper b'.' dot s,
        of_parts-upper s (split_once (λ c. c == b'/') s) true false,
        of_parts-upper s (split_once (λ c. c == b'~') s) false true,
        of_parts-upper s (split_once (λ c. c == b'.') s) false false,
      )
      refl

thor_make :
    (s : Text)
    → make (to_ascii_uppercase (codes "THOR")) (to_ascii_uppercase s) false false
      ≡ make (codes "THOR") s false false
unfolding to_ascii_uppercase
thor_make s =
    ap
      (λ x. record {
        chain = codes "THOR";
        ticker = first_part (split b'-' x);
        symbol = x;
        synth = false;
        trade = false;
      })
      (to_ascii_uppercase_idem s)

-- A symbol that gets the chain THOR in front is read as the symbol on THOR.
pub parse-thor :
    (s : Text)
    → contains b'/' s ≡ false
    → contains b'~' s ≡ false
    → parse (codes "THOR." ++ to_ascii_uppercase s) ≡ make (codes "THOR") s false false
unfolding parse contains split_once
parse-thor s e f = rw (contains-upper b'/' slash s, e, contains-upper b'~' tilde s, f) (thor_make s)
