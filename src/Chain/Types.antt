-- ===== src/Chain/Types.antt =====
-- crates/midgard-chain/src/types.rs: events, their attributes, and the phases of a block.
use midgard_rs.Common.{
  ℕ, ◌+◌, Bool, true, false, Option, none, some, List, [], ◌∷◌, if◌then◌else◌, map, not,
}
use midgard_rs.Common.Int.{ℤ}
use midgard_rs.Common.Text.{Text, codes, text_eq}

-- What `key_str` and `value_str` of tendermint return: none for bytes that are no UTF-8.
pub record EventAttribute : Type 0 where
  pub key : Option Text
  pub value : Option Text

pub record Event : Type 0 where
  pub kind : Text
  pub attributes : List EventAttribute

abbrev pub readable : EventAttribute → Option (Text × Text)
readable a = elim a.key [
  | none ↦ none
  | some k ↦ elim a.value [ none ↦ none | some v ↦ some (k, v) ]
]

abbrev pub collect_readable : List EventAttribute → List (Text × Text)
collect_readable [] = []
collect_readable (a ∷ rest) =
    let kvs = collect_readable rest in elim (readable a) [ none ↦ kvs | some kv ↦ kv ∷ kvs ]

unfoldable pub attrs : Event → List (Text × Text)
attrs e = collect_readable e.attributes

abbrev pub find_attr : List EventAttribute → Text → Option Text
find_attr [] key = none
find_attr (a ∷ rest) key =
    let later = find_attr rest key in
    elim (readable a) [ none ↦ later | some (k, v) ↦ if text_eq k key then some v else later ]

unfoldable pub attr : Event → Text → Option Text
unfolding text_eq
attr e key = find_attr e.attributes key

unfoldable pub make_event : Text → List (Text × Text) → Event
make_event kind kvs = record {
  kind = kind;
  attributes = map (λ (k, v). record { key = some k; value = some v }) kvs;
}

pub record TxResult : Type 0 where
  pub is_err : Bool
  pub events : List Event

pub record Block : Type 0 where
  pub height : ℤ
  pub timestamp : ℤ
  pub hash : Text
  pub chain_id : Text
  pub finalize_block_events : List Event
  -- None where the node reports no list.
  pub txs_results : Option (List TxResult)
  pub txs : List (List ℕ)

-- `.enumerate()` from a first index.
abbrev pub enumerate_from : {A : Type 0} → ℕ → List A → List (ℕ × A)
enumerate_from n [] = []
enumerate_from n (x ∷ xs) = (n, x) ∷ enumerate_from (n + 1) xs

abbrev pub filter : {A : Type 0} → (A → Bool) → List A → List A
filter test [] = []
filter test (x ∷ xs) = let rest = filter test xs in if test x then x ∷ rest else rest

abbrev pub is_begin_mode : Option Text → Bool
is_begin_mode none = true
is_begin_mode (some mode) = text_eq mode (codes "BeginBlock")

abbrev pub is_end_mode : Option Text → Bool
is_end_mode none = false
is_end_mode (some mode) = text_eq mode (codes "EndBlock")

unfoldable pub begin_block_events : Block → List (ℕ × Event)
unfolding text_eq attr
begin_block_events b =
    filter (λ (n, e). is_begin_mode (attr e (codes "mode")))
      (enumerate_from 0 b.finalize_block_events)

unfoldable pub end_block_events : Block → List (ℕ × Event)
unfolding text_eq attr
end_block_events b =
    filter (λ (n, e). is_end_mode (attr e (codes "mode")))
      (enumerate_from 0 b.finalize_block_events)

abbrev pub or_nil : {A : Type 0} → Option (List A) → List A
or_nil none = []
or_nil (some xs) = xs

unfoldable pub successful_txs : Block → List (ℕ × TxResult)
successful_txs b = filter (λ (n, tx). not tx.is_err) (enumerate_from 0 (or_nil b.txs_results))
