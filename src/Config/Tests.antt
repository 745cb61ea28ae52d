-- ===== src/Config/Tests.antt =====
-- Two settings, one of them overridden.
use midgard_rs.Common.{◌≡◌, refl, Option, none, List, [], ◌∷◌}
use midgard_rs.Common.Int.{pos}
use midgard_rs.Common.Text.{Text, codes, text_eq}
use midgard_rs.Record.Rows.{F64}
use midgard_rs.Config.Json.{Value, integer, string, object, no_fields, field}
use midgard_rs.Config.Env.{apply}
use midgard_rs.Config.Env.Edits.{IsMap}
use midgard_rs.Config.Env.OnePass.{overlay, apply-overlay}

abbrev no_floats : Text → Option F64
no_floats s = none

abbrev settings : Value
settings = object (
    field (codes "listen_port") (integer (pos 8080)) (
      field (codes "timescale")
        (object (field (codes "host") (string (codes "localhost")) no_fields)) no_fields))

abbrev environment : List (Text × Text)
environment = (codes "MIDGARD_TIMESCALE_HOST", codes "db") ∷ []

settings-IsMap : IsMap settings
unfolding IsMap text_eq
settings-IsMap = ((refl, tt), tt, (tt, (tt, tt, tt), tt))

apply-overlay_example :
    apply no_floats settings environment ≡ overlay no_floats environment [] settings
apply-overlay_example = apply-overlay no_floats environment settings settings-IsMap
