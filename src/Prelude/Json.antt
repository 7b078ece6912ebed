-- ===== src/Prelude/Json.antt =====
-- Values of JSON columns and bodies, as the checks of the source see them. The fields of an object
-- stand in the order of `Object.entries`, each key once.
use mathlib.Core.Bool.{Bool}
use mathlib.Core.Option.{Option, none, some}
use alpha_shadow.Prelude.Tests.{if◌then◌else◌}
use alpha_shadow.Prelude.Int.{Num}
use alpha_shadow.Prelude.Equality.{Text, text_eq, ◌===◌}

mutual
  pub data Json : Type 0 where
    null_value : Json
    boolean : Bool → Json
    number : Num → Json
    string : Text → Json
    array : JsonItems → Json
    object : JsonFields → Json

  pub data JsonItems : Type 0 where
    no_items : JsonItems
    item : Json → JsonItems → JsonItems

  pub data JsonFields : Type 0 where
    no_fields : JsonFields
    field : Text → Json → JsonFields → JsonFields

-- `value[key]`; `none` is undefined.
abbrev pub get_field : Text → JsonFields → Option Json
get_field key no_fields = none
get_field key (field name value rest) = if name === key then some value else get_field key rest
