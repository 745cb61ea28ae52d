-- ===== src/Core/Time.antt =====
-- crates/midgard-core/src/time.rs. `Second` and `Nano` are i64 newtypes; both are integers here.
-- `periods_per_year` returns a float and is not modelled.
use midgard_rs.Common.{ℕ}
use midgard_rs.Common.Int.{ℤ, quot}
use midgard_rs.Common.Word.{add_i64, sub_i64, mul_i64}

abbrev pub nanos_per_second : ℕ
nanos_per_second = 1_000_000_000

abbrev pub Second : Type 0
Second = ℤ

abbrev pub Nano : Type 0
Nano = ℤ

unfoldable pub to_nano : Second → Nano
unfolding mul_i64
to_nano s = mul_i64 s nanos_per_second

-- Rounds towards zero, as `/` does.
unfoldable pub to_second : Nano → Second
to_second n = quot n nanos_per_second

-- `Second + i64`, `Second - i64` and `Second - Second`.
abbrev pub add : Second → ℤ → Second
add s rhs = add_i64 s rhs

abbrev pub sub : Second → ℤ → Second
sub s rhs = sub_i64 s rhs

abbrev pub since : Second → Second → ℤ
since s rhs = sub_i64 s rhs
