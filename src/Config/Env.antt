-- ===== src/Config/Env.antt =====
-- crates/midgard-config/src/env.rs: the overrides from the environment. The parser of floats is a
-- parameter. Of the reason of an error the fixed part is kept; logging is left out.
pub mod Edits
pub mod OnePass
use midgard_rs.Common.{
  Bool, true, false, Option, none, some, List, [], ◌∷◌, ◌++◌, Result, ok, err, ok_or, map_err,
  ◌>>=◌, if◌then◌else◌, ◌==◌, ◌&&◌, map,
}
use midgard_rs.Common.Int.{ℤ}
use midgard_rs.Common.Text.{
  Text, codes, text_eq, one_of, is_nil, split, split_once, trim, parse_i64, to_ascii_uppercase,
}
use midgard_rs.Record.Rows.{F64}
use midgard_rs.Config.Json.{
  Value, Values, Fields, null, boolean, integer, float, string, array, object, no_values, value,
  no_fields, field,
}

pub data MapValue : Type 0 where
  of_text : MapValue
  of_integer : MapValue
  of_boolean : MapValue

-- `ConfigError::Env`, or the panic of `expect`.
pub data Failure : Type 0 where
  env : Text → Text → Failure
  panic : Failure

-- `SCALAR_MAPS`: each of the paths has one segment.
unfoldable pub scalar_map_at : List Text → Option MapValue
scalar_map_at [] = none
scalar_map_at (s ∷ t ∷ ts) = none
scalar_map_at (s ∷ []) =
    if text_eq (codes "pools_decimal") s
    then some of_integer
    else if text_eq (codes "filtered_addresses") s
    then some of_text
    else if text_eq (codes "case_insensitive_chains") s
    then some of_boolean
    else none

abbrev pub joined : List Text → Text
joined [] = []
joined (s ∷ []) = to_ascii_uppercase s
joined (s ∷ t ∷ ts) = to_ascii_uppercase s ++ codes "_" ++ joined (t ∷ ts)

unfoldable pub env_name : List Text → Text
env_name path = codes "MIDGARD_" ++ joined path

abbrev pub non_empty : List Text → List Text
non_empty [] = []
non_empty (s ∷ ss) =
    let rest = non_empty ss in let t = trim s in if is_nil t then rest else t ∷ rest

unfoldable pub split_list : Text → List Text
split_list raw = non_empty (split b',' raw)

abbrev pub parse_bool : Text → Result Text Bool
parse_bool s =
    if one_of s (codes "true" ∷ codes "1" ∷ codes "yes" ∷ [])
    then ok true
    else if one_of s (codes "false" ∷ codes "0" ∷ codes "no" ∷ [])
    then ok false
    else err (codes " is not a boolean")

abbrev pub parse_integer : Text → Result Text ℤ
parse_integer s = ok_or (parse_i64 s) (codes " is not an integer")

abbrev pub map_value : MapValue → Text → Result Text Value
map_value of_integer v = do n ← parse_integer (trim v); ok (integer n)
map_value of_boolean v = do b ← parse_bool (trim v); ok (boolean b)
map_value of_text v = ok (string (trim v))

-- `Map::insert`
abbrev pub insert : Text → Value → Fields → Fields
insert key v no_fields = field key v no_fields
insert key v (field k w fs) =
    let rest = insert key v fs in if text_eq k key then field k v fs else field k w rest

abbrev pub read_entries : MapValue → List Text → Fields → Result Text Fields
read_entries kind [] fs = ok fs
read_entries kind (entry ∷ entries) fs = do
  (key, raw) ← ok_or (split_once (λ c. c == b':') entry) (codes " is not KEY:VALUE")
  v ← map_value kind raw
  read_entries kind entries (insert (trim key) v fs)

abbrev pub strings : List Text → Values
strings [] = no_values
strings (s ∷ ss) = value (string s) (strings ss)

-- The first variable of the name.
abbrev pub find_var : List (Text × Text) → Text → Option Text
find_var [] name = none
find_var ((k, v) ∷ vars) name =
    let later = find_var vars name in if text_eq k name then some v else later

pub record Override : Type 0 where
  pub path : List Text
  pub var : Text
  pub raw : Text

abbrev pub at_leaf : List Text → List (Text × Text) → List Override
at_leaf path environment = elim (find_var environment (env_name path)) [
  | none ↦ []
  | some raw ↦ record { path = path; var = env_name path; raw = raw } ∷ []
]

mutual
  -- `collect`, for a node and for the fields of one.
  pub collect : Value → List Text → List (Text × Text) → List Override
  collect (object fs) path environment =
      let below = collect_fields fs path environment in
      elim (scalar_map_at path) [ none ↦ below | some kind ↦ at_leaf path environment ]
  collect null path environment = at_leaf path environment
  collect (boolean b) path environment = at_leaf path environment
  collect (integer n) path environment = at_leaf path environment
  collect (float x) path environment = at_leaf path environment
  collect (string s) path environment = at_leaf path environment
  collect (array vs) path environment = at_leaf path environment

  pub collect_fields : Fields → List Text → List (Text × Text) → List Override
  collect_fields no_fields path environment = []
  collect_fields (field key v fs) path environment =
      collect v (path ++ key ∷ []) environment ++ collect_fields fs path environment

mutual
  -- `lookup_mut`, and what is done with the node that it finds.
  pub update : List Text → (Value → Result Failure Value) → Value → Result Failure Value
  update [] change v = change v
  update (k ∷ path) change (object fs) = update_fields k path change fs >>= λ gs. ok (object gs)
  update (k ∷ path) change null = err panic
  update (k ∷ path) change (boolean b) = err panic
  update (k ∷ path) change (integer n) = err panic
  update (k ∷ path) change (float x) = err panic
  update (k ∷ path) change (string s) = err panic
  update (k ∷ path) change (array vs) = err panic

  pub update_fields :
      Text → List Text → (Value → Result Failure Value) → Fields → Result Failure Fields
  update_fields k path change no_fields = err panic
  update_fields k path change (field key v fs) =
      let here = update path change v in
      let later = update_fields k path change fs in
      if text_eq key k
      then (here >>= λ w. ok (field key w fs))
      else (later >>= λ gs. ok (field key v gs))

module _ (parse_f64 : Text → Option F64) where
  unfoldable pub coerce : Value → Option MapValue → Text → Result Text Value
  coerce current (some kind) raw = do
    fs ← read_entries kind (split_list raw) no_fields
    ok (object fs)
  coerce (boolean b) none raw = do c ← parse_bool raw; ok (boolean c)
  coerce (float x) none raw = do y ← ok_or (parse_f64 raw) (codes " is not a number"); ok (float y)
  coerce (integer n) none raw = do m ← parse_integer raw; ok (integer m)
  coerce (string s) none raw = ok (string raw)
  coerce (array vs) none raw = ok (array (strings (split_list raw)))
  coerce (object fs) none raw = err (codes "cannot set a nested section from a single variable")
  coerce null none raw = ok (string raw)

  abbrev pub change_by : Override → Value → Result Failure Value
  change_by o v = map_err (env o.var) (coerce v (scalar_map_at o.path) o.raw)

  abbrev pub apply_all : List Override → Value → Result Failure Value
  apply_all [] root = ok root
  apply_all (o ∷ os) root = do next ← update o.path (change_by o) root; apply_all os next

  unfoldable pub apply : Value → List (Text × Text) → Result Failure Value
  apply root environment = apply_all (collect root [] environment) root
