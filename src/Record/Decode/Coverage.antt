-- ===== src/Record/Decode/Coverage.antt =====
-- crates/midgard-record/src/events.rs: `decode` stores an event in the row for its kind, ignores it,
-- or does not know it.
use midgard_rs.Common.{
  Bool, true, false, ◌&&◌, ◌||◌, ◌≡◌, refl, sym, ap, subst, ◌∙◌, Option, List, [], ◌∷◌, Result, ok,
  err, Bool-cases, inl, inr, map, and_left, and_right,
}
use midgard_rs.Common.Text.{Text, codes, text_eq, text_eq_iff, one_of, starts_with}
use midgard_rs.Chain.Types.{Event}
use midgard_rs.Record.Attributes.{DecodeError}
use midgard_rs.Record.Decoders.Network as Network
use midgard_rs.Record.Decoders.Pools as Pools
use midgard_rs.Record.Decoders.Transactions as Transactions
use midgard_rs.Record.Rows as Rows
use midgard_rs.Record.Rows.{F64, Recorded}
use midgard_rs.Record.Decode.{
  Decoded, ignored, unknown, event, events, one_row, all_rows, arm, decode, decode_other, decoders,
  ignored_kinds,
}
use midgard_rs.Record.Decode.Kinds.{kinds_of, stored_kinds, quiet_kinds}

-- All the rows are for a kind.
abbrev pub AllOfKind : Text → List Recorded → Type 0
AllOfKind kind [] = Unit
AllOfKind kind (r ∷ rs) = (one_of kind (kinds_of r) ≡ true) × AllOfKind kind rs

abbrev pub is_quiet : Text → Bool
is_quiet kind = one_of kind quiet_kinds || starts_with kind (codes "wasm-")

-- What becomes of an event of a kind.
abbrev pub IsRouted : Text → Result DecodeError Decoded → Type 0
IsRouted kind (err x) = one_of kind stored_kinds ≡ true
IsRouted kind (ok (event r)) = (one_of kind stored_kinds ≡ true) × (one_of kind (kinds_of r) ≡ true)
IsRouted kind (ok (events rs)) = (one_of kind stored_kinds ≡ true) × AllOfKind kind rs
IsRouted kind (ok ignored) = (one_of kind stored_kinds ≡ false) × (is_quiet kind ≡ true)
IsRouted kind (ok unknown) = (one_of kind stored_kinds ≡ false) × (is_quiet kind ≡ false)

-- Lists that hold the same texts.
abbrev all_in : List Text → List Text → Bool
all_in [] ys = true
all_in (x ∷ xs) ys = one_of x ys && all_in xs ys

one_of-all_in :
    (k : Text) (xs ys : List Text) → all_in xs ys ≡ true → one_of k xs ≡ true → one_of k ys ≡ true
unfolding one_of
one_of-all_in k [] ys h e = cc
one_of-all_in k (x ∷ xs) ys h e = elim (Bool-cases (text_eq k x)) [
  | inl q ↦ ap (λ z. one_of z ys) ((text_eq_iff k x).0 q) ∙ and_left _ _ h
  | inr q ↦ one_of-all_in k xs ys (and_right _ _ h) (subst (λ b. (b || one_of k xs) ≡ true) q e)
]

Bool-antisym : (a b : Bool) → (a ≡ true → b ≡ true) → (b ≡ true → a ≡ true) → a ≡ b
Bool-antisym true b h k = sym (h refl)
Bool-antisym false true h k = k refl
Bool-antisym false false h k = refl

one_of-same :
    (k : Text) (xs ys : List Text)
    → all_in xs ys ≡ true
    → all_in ys xs ≡ true
    → one_of k xs ≡ one_of k ys
one_of-same k xs ys h g =
    Bool-antisym (one_of k xs) (one_of k ys) (one_of-all_in k xs ys h) (one_of-all_in k ys xs g)

same_quiet : (k : Text) → one_of k ignored_kinds ≡ one_of k quiet_kinds
unfolding one_of text_eq
same_quiet k = one_of-same k ignored_kinds quiet_kinds refl refl

other-IsRouted :
    (kind : Text) → one_of kind stored_kinds ≡ false → IsRouted kind (ok (decode_other kind))
unfolding decode_other
other-IsRouted kind h = elim (Bool-cases (one_of kind ignored_kinds)) [
  | inl e ↦ rw e (h, rw (sym (same_quiet kind), e) refl)
  | inr e ↦ elim (Bool-cases (starts_with kind (codes "wasm-"))) [
    | inl f ↦ rw (e, f) (h, rw (sym (same_quiet kind), e, f) refl)
    | inr f ↦ rw (e, f) (h, rw (sym (same_quiet kind), e, f) refl)
  ]
]

one_row-IsRouted :
    {A : Type 0} (k : Text) (row : A → Recorded)
    → one_of k stored_kinds ≡ true
    → ((a : A) → one_of k (kinds_of (row a)) ≡ true)
    → (r : Result DecodeError A) → IsRouted k (one_row row r)
one_row-IsRouted k row h g (ok a) = (h, g a)
one_row-IsRouted k row h g (err x) = h

transfers-AllOfKind :
    (ts : List Rows.Transfer) → AllOfKind (codes "transfer") (map Rows.transfer ts)
unfolding one_of text_eq
transfers-AllOfKind [] = tt
transfers-AllOfKind (t ∷ ts) = (refl, transfers-AllOfKind ts)

all_rows-IsRouted :
    (r : Result DecodeError (List Rows.Transfer)) → IsRouted (codes "transfer") (all_rows r)
unfolding one_of text_eq
all_rows-IsRouted (ok ts) = (refl, transfers-AllOfKind ts)
all_rows-IsRouted (err x) = refl

abbrev AllRouted : List (Text × (Event → Result DecodeError Decoded)) → Type 0
AllRouted [] = Unit
AllRouted ((k, f) ∷ arms) = ((e : Event) → IsRouted k (f e)) × AllRouted arms

abbrev kinds : List (Text × (Event → Result DecodeError Decoded)) → List Text
kinds arms = map (λ (k, f). k) arms

arm-IsRouted :
    (kind : Text) (arms : List (Text × (Event → Result DecodeError Decoded))) (e : Event)
    → AllRouted arms
    → (one_of kind (kinds arms) ≡ false → one_of kind stored_kinds ≡ false)
    → IsRouted kind (arm kind arms e)
unfolding one_of
arm-IsRouted kind [] e h g = other-IsRouted kind (g refl)
arm-IsRouted kind ((k, f) ∷ arms) e (h, hs) g = elim (Bool-cases (text_eq kind k)) [
  | inl q ↦ rw q (subst (λ x. IsRouted x (f e)) (sym ((text_eq_iff kind k).0 q)) (h e))
  | inr q ↦ rw q (arm-IsRouted kind arms e hs (λ r. g (rw (q, r) refl)))
]

-- One arm, and the arms behind it.
infixr 40 ◌▸◌
abbrev ◌▸◌ : {A B : Type 0} → A → B → A × B
a ▸ b = (a, b)

decoders-AllRouted : (parse_f64 : Text → Option F64) → AllRouted (decoders parse_f64)
unfolding one_of text_eq
decoders-AllRouted parse_f64 =
    (λ e. one_row-IsRouted (codes "swap") Rows.swap refl (λ v. refl) (Pools.swap e))
    ▸ (λ e. one_row-IsRouted (codes "add_liquidity") Rows.stake refl (λ v. refl) (Pools.stake e))
    ▸ (λ e. one_row-IsRouted (codes "add") Rows.stake refl (λ v. refl) (Pools.stake e))
    ▸ (λ e.
        one_row-IsRouted (codes "withdraw") Rows.withdraw refl (λ v. refl)
          (Pools.withdraw parse_f64 e))
    ▸ (λ e. one_row-IsRouted (codes "pool") Rows.pool refl (λ v. refl) (Pools.pool_status e))
    ▸ (λ e. one_row-IsRouted (codes "fee") Rows.fee refl (λ v. refl) (Pools.fee e))
    ▸ (λ e. one_row-IsRouted (codes "gas") Rows.gas refl (λ v. refl) (Pools.gas e))
    ▸ (λ e. one_row-IsRouted (codes "rewards") Rows.rewards refl (λ v. refl) (Pools.rewards e))
    ▸ (λ e.
        one_row-IsRouted (codes "outbound") Rows.outbound refl (λ v. refl)
          (Transactions.outbound e))
    ▸ (λ e. one_row-IsRouted (codes "refund") Rows.refund refl (λ v. refl) (Transactions.refund e))
    ▸ (λ e. one_row-IsRouted (codes "donate") Rows.add refl (λ v. refl) (Pools.donate e))
    ▸ (λ e. all_rows-IsRouted (Transactions.transfer e))
    ▸ (λ e. one_row-IsRouted (codes "bond") Rows.bond refl (λ v. refl) (Transactions.bond e))
    ▸ (λ e.
        one_row-IsRouted (codes "pending_liquidity") Rows.pending_liquidity refl (λ v. refl)
          (Pools.pending_liquidity e))
    ▸ (λ e. one_row-IsRouted (codes "errata") Rows.errata refl (λ v. refl) (Pools.errata e))
    ▸ (λ e.
        one_row-IsRouted (codes "set_mimir") Rows.set_mimir refl (λ v. refl) (Network.set_mimir e))
    ▸ (λ e.
        one_row-IsRouted (codes "mint_burn") Rows.mint_burn refl (λ v. refl) (Network.mint_burn e))
    ▸ (λ e.
        one_row-IsRouted (codes "pool_balance_change") Rows.pool_balance_change refl (λ v. refl)
          (Pools.pool_balance_change e))
    ▸ (λ e. one_row-IsRouted (codes "slash") Rows.slash refl (λ v. refl) (Pools.slash e))
    ▸ (λ e. one_row-IsRouted (codes "switch") Rows.switch refl (λ v. refl) (Transactions.switch e))
    ▸ (λ e.
        one_row-IsRouted (codes "ActiveVault") Rows.active_vault refl (λ v. refl) (Network.vault e))
    ▸ (λ e.
        one_row-IsRouted (codes "InactiveVault") Rows.inactive_vault refl (λ v. refl)
          (Network.vault e))
    ▸ (λ e.
        one_row-IsRouted (codes "UpdateNodeAccountStatus") Rows.node_status refl (λ v. refl)
          (Network.node_status e))
    ▸ tt

same_stored :
    (parse_f64 : Text → Option F64) (k : Text)
    → one_of k (kinds (decoders parse_f64)) ≡ one_of k stored_kinds
unfolding one_of text_eq
same_stored parse_f64 k = one_of-same k (kinds (decoders parse_f64)) stored_kinds refl refl

-- Each event has one outcome by its kind. It is stored only in rows that are for its kind; it is
-- stored, or fails for an attribute, only if its kind is one of the kinds with rows; it is ignored
-- only if its kind has no rows and is a known kind without them or starts with "wasm-"; and it is
-- unknown only if it has none of these kinds.
pub decode-IsRouted :
    (parse_f64 : Text → Option F64) (e : Event) → IsRouted e.kind (decode parse_f64 e)
unfolding decode
decode-IsRouted parse_f64 e =
    arm-IsRouted e.kind (decoders parse_f64) e (decoders-AllRouted parse_f64)
      (λ h. sym (same_stored parse_f64 e.kind) ∙ h)
