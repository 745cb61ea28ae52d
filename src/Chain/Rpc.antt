-- ===== src/Chain/Rpc.antt =====
-- crates/midgard-chain/src/rpc.rs: JSON-RPC calls, single and batched. HTTP and serde_json are
-- foreign: a `Reply` is what they make of the answer of the node, and `from_value` is what the
-- deserializer of a type says of a result. Of the message of an error the fixed beginning is kept.
pub mod Order
pub mod Replies
use midgard_rs.Common.{
  ℕ, zero, suc, ◌+◌, ◌==◌, Bool, Option, none, some, List, [], ◌∷◌, ◌++◌, Result, ok, err, ok_or,
  map_err, ◌>>=◌, if◌then◌else◌, length,
}
use midgard_rs.Common.Int.{ℤ, pos, eqb_ℤ}
use midgard_rs.Common.Text.{Text, codes}

pub data RpcError : Type 0 where
  http : Text → RpcError
  rpc : Text → ℤ → Text → RpcError
  malformed : Text → Text → RpcError

-- The fields of an error object that have the type the program asks for.
pub record Fault : Type 0 where
  pub code : Option ℤ
  pub message : Option Text
  pub data_text : Option Text

-- One response: its id where that is an integer, its error where it has one that is not null, its
-- result where it has one.
pub record Envelope (Json : Type 0) : Type 0 where
  pub id : Option ℤ
  pub error : Option Fault
  pub result : Option Json

pub data Reply (Json : Type 0) : Type 0 where
  no_reply : Reply Json
  single : Envelope Json → Reply Json
  batch : List (Envelope Json) → Reply Json

pub record RpcClient : Type 0 where
  pub url : Text

-- `trim_end_matches('/')`
abbrev pub trim_slashes : Text → Text
trim_slashes [] = []
trim_slashes (c ∷ s) =
    let rest = trim_slashes s in
    elim rest [ [] ↦ if c == b'/' then [] else c ∷ [] | d ∷ t ↦ c ∷ d ∷ t ]

-- `RpcClient::new`, where the HTTP client can be built or not.
unfoldable pub new : Bool → Text → Result RpcError RpcClient
new is_built base_url =
    if is_built then ok (record { url = trim_slashes base_url }) else err (http base_url)

abbrev pub or_else : {A : Type 0} → Option A → A → A
or_else none d = d
or_else (some v) d = v

abbrev pub after_colon : Option Text → Text
after_colon none = []
after_colon (some d) = codes ": " ++ d

abbrev pub fault_error : Text → Fault → RpcError
fault_error method f =
    rpc method (or_else f.code (pos 0))
      (or_else f.message (codes "unknown") ++ after_colon f.data_text)

-- A JSON object with ids as keys, the newest entry of an id in front.
abbrev pub find_id : {A : Type 0} → ℤ → List (ℤ × A) → Option A
find_id i [] = none
find_id i ((j, e) ∷ m) = let later = find_id i m in if eqb_ℤ j i then some e else later

abbrev pub remove_id : {A : Type 0} → ℤ → List (ℤ × A) → List (ℤ × A)
remove_id i [] = []
remove_id i ((j, e) ∷ m) = let rest = remove_id i m in if eqb_ℤ j i then rest else (j, e) ∷ rest

module _ {Json : Type 0} where
  -- The loop that fills `by_id`.
  abbrev pub collect_ids :
      Text
      → List (Envelope Json)
      → List (ℤ × Envelope Json)
      → Result RpcError (List (ℤ × Envelope Json))
  collect_ids method [] m = ok m
  collect_ids method (e ∷ es) m = elim e.id [
    | none ↦ err (malformed method (codes "response has no usable id"))
    | some i ↦ collect_ids method es ((i, e) ∷ m)
  ]

module _ {Json T : Type 0} (from_value : Json → Result Text T) where
  unfoldable pub extract_result : Text → Envelope Json → Result RpcError T
  extract_result method e = elim e.error [
    | some f ↦ err (fault_error method f)
    | none ↦ elim e.result [
      | none ↦ err (malformed method (codes "no result field in "))
      | some v ↦ map_err (malformed method) (from_value v)
    ]
  ]

  -- `call`. An array has no field, neither `error` nor `result`.
  unfoldable pub call : Text → Text → Reply Json → Result RpcError T
  unfolding extract_result
  call url method no_reply = err (http url)
  call url method (single e) = extract_result method e
  call url method (batch es) = err (malformed method (codes "no result field in "))

  -- The loop that empties `by_id`, for the next `n` ids from `i` on.
  abbrev pub take_results : Text → ℕ → ℕ → List (ℤ × Envelope Json) → Result RpcError (List T)
  take_results method zero i m = ok []
  take_results method (suc n) i m = do
    e ← ok_or (find_id (pos i) m) (malformed method (codes "no response with id "))
    v ← extract_result method e
    vs ← take_results method n (i + 1) (remove_id (pos i) m)
    ok (v ∷ vs)

  -- `call_batch`, for a number of calls, of which there are fewer than 2 ^ 63.
  unfoldable pub call_batch : Text → Text → ℕ → Reply Json → Result RpcError (List T)
  call_batch url method zero reply = ok []
  call_batch url method (suc n) no_reply = err (http url)
  call_batch url method (suc n) (single e) =
      err (malformed method (codes "expected an array of responses, got "))
  call_batch url method (suc n) (batch es) =
      if length es == suc n
      then (do m ← collect_ids method es []; take_results method (suc n) 0 m)
      else err (malformed method (codes "asked for "))
