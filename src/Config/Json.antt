-- ===== src/Config/Json.antt =====
-- A value of serde_json. An object is the list of its fields in the order in which the map gives them.
use midgard_rs.Common.{Bool}
use midgard_rs.Common.Int.{ℤ}
use midgard_rs.Common.Text.{Text}
use midgard_rs.Record.Rows.{F64}

mutual
  pub data Value : Type 0 where
    null : Value
    boolean : Bool → Value
    integer : ℤ → Value
    float : F64 → Value
    string : Text → Value
    array : Values → Value
    object : Fields → Value

  pub data Values : Type 0 where
    no_values : Values
    value : Value → Values → Values

  pub data Fields : Type 0 where
    no_fields : Fields
    field : Text → Value → Fields → Fields
