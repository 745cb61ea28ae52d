-- ===== src/Core/Asset/Display.antt =====
-- crates/midgard-core/src/asset.rs: what printing a parsed asset gives back.
use midgard_rs.Common.{
  ℕ, Bool, true, false, ◌≡◌, refl, ap, sym, ◌∙◌, Bool-cases, inl, inr, Option, none, some, [], ◌∷◌,
  ◌++◌, ◌==◌, ◌||◌, if◌then◌else◌, ==_iff, arith,
}
use midgard_rs.Common.Text.{Text, codes, to_ascii_uppercase, contains, split_once}
use midgard_rs.Core.Asset.{parse, to_string, of_parts, make}
use midgard_rs.Core.Asset.Case.{parse-upper, parse-thor}

abbrev parts_cons : ℕ → Option (Text × Text) → Option (Text × Text)
parts_cons c none = none
parts_cons c (some (a, b)) = some (c ∷ a, b)

abbrev has_parts : Option (Text × Text) → Bool
has_parts none = false
has_parts (some p) = true

-- The text that a split came from.
abbrev rejoin : ℕ → Text → Option (Text × Text) → Text
rejoin d s none = s
rejoin d s (some (a, b)) = a ++ d ∷ b

rejoin-parts_cons :
    (d c : ℕ) (s : Text) (o : Option (Text × Text))
    → rejoin d (c ∷ s) (parts_cons c o) ≡ c ∷ rejoin d s o
rejoin-parts_cons d c s none = refl
rejoin-parts_cons d c s (some (a, b)) = refl

has_parts-parts_cons : (c : ℕ) (o : Option (Text × Text)) → has_parts (parts_cons c o) ≡ has_parts o
has_parts-parts_cons c none = refl
has_parts-parts_cons c (some p) = refl

split_once-nil : (d : ℕ) → split_once (λ x. x == d) [] ≡ none
unfolding split_once
split_once-nil d = refl

split_once-cons :
    (d c : ℕ) (s : Text)
    → (c == d) ≡ false
    → split_once (λ x. x == d) (c ∷ s) ≡ parts_cons c (split_once (λ x. x == d) s)
unfolding split_once
split_once-cons d c s e =
    rw e
      elim (split_once (λ x. x == d) s)
        as (λ o. (elim o [ none ↦ none | some (a, b) ↦ some (c ∷ a, b) ]) ≡ parts_cons c o) [
          | none ↦ refl
          | some p ↦ refl
        ]

split_once-here :
    (d c : ℕ) (s : Text) → (c == d) ≡ true → split_once (λ x. x == d) (c ∷ s) ≡ some ([], s)
unfolding split_once
split_once-here d c s e = rw e refl

rejoin-split_once : (d : ℕ) (s : Text) → rejoin d s (split_once (λ x. x == d) s) ≡ s
rejoin-split_once d [] = rw (split_once-nil d) refl
rejoin-split_once d (c ∷ s) = elim (Bool-cases (c == d)) [
  | inl e ↦ rw (split_once-here d c s e) (ap (λ x. x ∷ s) (sym ((==_iff c d).0 e)))
  | inr e ↦ rw (
    split_once-cons d c s e,
    rejoin-parts_cons d c s (split_once (λ x. x == d) s),
    rejoin-split_once d s,
  )
]

has_parts-split_once : (d : ℕ) (s : Text) → has_parts (split_once (λ x. x == d) s) ≡ contains d s
unfolding contains
has_parts-split_once d [] = rw (split_once-nil d) refl
has_parts-split_once d (c ∷ s) = elim (Bool-cases (c == d)) [
  | inl e ↦ rw (split_once-here d c s e) (ground arith)
  | inr e ↦
      rw
        (
          split_once-cons d c s e,
          has_parts-parts_cons c (split_once (λ x. x == d) s),
          has_parts-split_once d s,
        )
        (ground arith)
]

to_ascii_uppercase-append :
    (a b : Text) → to_ascii_uppercase (a ++ b) ≡ to_ascii_uppercase a ++ to_ascii_uppercase b
unfolding to_ascii_uppercase
to_ascii_uppercase-append [] b = refl
to_ascii_uppercase-append (c ∷ a) b = rw (to_ascii_uppercase-append a b) refl

-- A text that was split at the separator of its kind prints in upper case.
to_string-of_parts :
    (d : ℕ) (s : Text) (is_synth is_trade : Bool) (o : Option (Text × Text))
    → has_parts o ≡ true
    → (if is_synth then b'/' else if is_trade then b'~' else b'.') ≡ d
    → to_ascii_uppercase (d ∷ []) ≡ d ∷ []
    → to_string (of_parts s o is_synth is_trade) ≡ to_ascii_uppercase (rejoin d s o)
unfolding to_string
to_string-of_parts d s is_synth is_trade none h e u = cc
to_string-of_parts d s is_synth is_trade (some (a, b)) h e u =
    rw (to_ascii_uppercase-append a (d ∷ b), to_ascii_uppercase-append (d ∷ []) b, u)
      (ap (λ x. to_ascii_uppercase a ++ x ∷ to_ascii_uppercase b) e)

-- The text in upper case where it has one of '/', '~' and '.', and behind the chain THOR otherwise.
abbrev pub printed : Text → Text
printed s =
    if contains b'/' s || contains b'~' s || contains b'.' s
    then to_ascii_uppercase s
    else codes "THOR." ++ to_ascii_uppercase s

display_lem :
    (d : ℕ) (s : Text) (is_synth is_trade : Bool)
    → contains d s ≡ true
    → (if is_synth then b'/' else if is_trade then b'~' else b'.') ≡ d
    → to_ascii_uppercase (d ∷ []) ≡ d ∷ []
    → to_string (of_parts s (split_once (λ x. x == d) s) is_synth is_trade) ≡ to_ascii_uppercase s
display_lem d s is_synth is_trade h e u =
    to_string-of_parts d s is_synth is_trade (split_once (λ x. x == d) s)
      (has_parts-split_once d s ∙ h) e u
    ∙ ap to_ascii_uppercase (rejoin-split_once d s)

no_parts : (o : Option (Text × Text)) → has_parts o ≡ false → o ≡ none
no_parts none h = refl
no_parts (some p) h = cc

thor_lem :
    (s : Text)
    → to_string (make (codes "THOR") s false false) ≡ codes "THOR." ++ to_ascii_uppercase s
unfolding to_string
thor_lem s = refl

to_string-printed : (s : Text) → to_string (parse s) ≡ printed s
unfolding parse to_ascii_uppercase
to_string-printed s = elim (Bool-cases (contains b'/' s)) [
  | inl e ↦ rw e (display_lem b'/' s true false e refl refl)
  | inr e ↦ elim (Bool-cases (contains b'~' s)) [
    | inl f ↦ rw (e, f) (display_lem b'~' s false true f refl refl)
    | inr f ↦ elim (Bool-cases (contains b'.' s)) [
      | inl g ↦ rw (e, f, g) (display_lem b'.' s false false g refl refl)
      | inr g ↦
          rw (e, f, g, no_parts (split_once (λ c. c == b'.') s) (has_parts-split_once b'.' s ∙ g))
            (thor_lem s)
    ]
  ]
]

-- A text without a separator is a symbol on THOR.
parse-bare :
    (s : Text)
    → contains b'/' s ≡ false
    → contains b'~' s ≡ false
    → contains b'.' s ≡ false
    → parse s ≡ make (codes "THOR") s false false
unfolding parse
parse-bare s e f g =
    rw (e, f, no_parts (split_once (λ c. c == b'.') s) (has_parts-split_once b'.' s ∙ g)) refl

parse-printed : (s : Text) → parse (printed s) ≡ parse s
parse-printed s = elim (Bool-cases (contains b'/' s)) [
  | inl e ↦ rw e (parse-upper s)
  | inr e ↦ elim (Bool-cases (contains b'~' s)) [
    | inl f ↦ rw (e, f) (parse-upper s)
    | inr f ↦ elim (Bool-cases (contains b'.' s)) [
      | inl g ↦ rw (e, f, g) (parse-upper s)
      | inr g ↦ rw (e, f, g) (parse-thor s e f ∙ sym (parse-bare s e f g))
    ]
  ]
]

-- An asset that is parsed from a text with '/', '~' or '.' prints as the text in upper case; one
-- from any other text, also from one whose only separator is '-', prints with "THOR." in front of
-- it. In each case what is printed is parsed to the same asset.
pub to_string-parse :
    (s : Text) → (to_string (parse s) ≡ printed s) × (parse (to_string (parse s)) ≡ parse s)
to_string-parse s = (to_string-printed s, ap parse (to_string-printed s) ∙ parse-printed s)
