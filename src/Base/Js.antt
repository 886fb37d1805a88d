-- ===== src/Base/Js.antt =====
-- JavaScript values as trees, for what is written to JSON and read back. The fields of an object stand
-- in their order.
use mathlib.Core.Option.{Option, none, some}
use mathlib.Core.Bool.{Bool}
use agentct.Base.Bools.{if◌then◌else◌}
use agentct.Base.Int.{ℤ}
use agentct.Base.Double.{Double}
use agentct.Base.Texts.{Text, text_eq}

mutual
  pub data Value : Type 0 where
    null : Value
    bool : Bool → Value
    num : Double → Value
    str : Text → Value
    big : ℤ → Value
    arr : Values → Value
    obj : Fields → Value

  pub data Values : Type 0 where
    no_values : Values
    element : Value → Values → Values

  pub data Fields : Type 0 where
    no_fields : Fields
    field : Text → Value → Fields → Fields

-- A field of an object by its name.
unfoldable pub member : Text → Fields → Option Value
member k no_fields = none
member k (field j v fs) = if text_eq j k then some v else member k fs

-- `v.k`, where `undefined` is `none`; the source reads no member of a string or an array by this.
unfoldable pub get_member : Text → Value → Option Value
unfolding member
get_member k (obj fs) = member k fs
get_member k _ = none
