-- ===== src/Record/Attributes.antt =====
-- crates/midgard-record/src/events.rs: the errors of decoding, and the helpers that read one
-- attribute of an event.
use midgard_rs.Common.{Option, none, some, [], ◌∷◌, Result, ok, ok_or, map_err, ◌>>=◌}
use midgard_rs.Common.Int.{ℤ, pos}
use midgard_rs.Common.Text.{Text, parse_i64}
use midgard_rs.Chain.Types.{Event, attr}
use midgard_rs.Record.Coin.{Coin, CoinError, parse_coin}
use midgard_rs.Record.Rows.{F64}

pub data DecodeError : Type 0 where
  missing : Text → Text → DecodeError
  not_a_number : Text → Text → Text → DecodeError
  coin : Text → CoinError → DecodeError

unfoldable pub required : Event → Text → Text → Result DecodeError Text
unfolding attr
required e kind key = ok_or (attr e key) (missing kind key)

abbrev pub nonempty : Option Text → Option Text
nonempty none = none
nonempty (some []) = none
nonempty (some (c ∷ s)) = some (c ∷ s)

unfoldable pub optional : Event → Text → Option Text
unfolding attr
optional e key = nonempty (attr e key)

abbrev pub or_empty : Option Text → Text
or_empty none = []
or_empty (some s) = s

unfoldable pub text : Event → Text → Text
unfolding attr
text e key = or_empty (attr e key)

-- The match that `int` and `float` share.
abbrev pub number :
    {A : Type 0} → (Text → Option A) → A → Text → Text → Option Text → Result DecodeError A
number parse zero kind key none = ok zero
number parse zero kind key (some []) = ok zero
number parse zero kind key (some (c ∷ s)) = ok_or (parse (c ∷ s)) (not_a_number kind key (c ∷ s))

unfoldable pub int : Event → Text → Text → Result DecodeError ℤ
unfolding attr parse_i64
int e kind key = number parse_i64 (pos 0) kind key (attr e key)

-- `parse::<f64>()` of the standard library is a parameter; the bits of 0.0 are all zero.
unfoldable pub float : (Text → Option F64) → Event → Text → Text → Result DecodeError F64
unfolding attr
float parse_f64 e kind key = number parse_f64 0 kind key (attr e key)

unfoldable pub coin_of : Event → Text → Text → Result DecodeError Coin
unfolding required parse_coin
coin_of e kind key = required e kind key >>= λ raw. map_err (coin kind) (parse_coin raw)
