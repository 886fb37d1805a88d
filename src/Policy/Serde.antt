-- ===== src/Policy/Serde.antt =====
-- packages/core/src/policy/serde.ts: policies as JSON, with bigints wrapped in an object. The text of
-- a tree is written and read by the platform's JSON, a parameter; what it does to the tree, the
-- replacer and the reviver, is modelled.
pub mod RoundTrip
use agentct.Base.{
  Text, codes, ℤ, pos, Bool, true, false, not, Option, none, some, List, ◌==◌, ◌^◌, if◌then◌else◌,
}
use agentct.Base.Double.{Double, is_finite, zero_double}
use agentct.Base.Decimal.{int_text, int_of_text}
use agentct.Base.Js.{
  Value, Values, Fields, null, bool, num, str, big, arr, obj, no_values, element, no_fields, field,
  member,
}

abbrev pub tag : Text
tag = codes "__bigint"

-- A number as JSON writes it: NaN and the infinities are null, and the negative zero is zero.
unfoldable pub json_number : Double → Value
json_number d = if is_finite d then (if d.bits == 2 ^ 63 then num zero_double else num d) else null

-- The tree that JSON.stringify writes under the replacer.
unfoldable mutual
  pub encode : Value → Value
  encode null = null
  encode (bool b) = bool b
  encode (num d) = json_number d
  encode (str s) = str s
  encode (big i) = obj (field tag (str (int_text i)) no_fields)
  encode (arr vs) = arr (encode_values vs)
  encode (obj fs) = obj (encode_fields fs)

  pub encode_values : Values → Values
  encode_values no_values = no_values
  encode_values (element v vs) = element (encode v) (encode_values vs)

  pub encode_fields : Fields → Fields
  encode_fields no_fields = no_fields
  encode_fields (field k v fs) = field k (encode v) (encode_fields fs)

-- `BigInt` of a value. Of a number, and of an array or object, whose text the platform makes, it is
-- a parameter; `none` is an error thrown.
unfoldable pub big_of : (Value → Option ℤ) → Value → Option ℤ
big_of other null = none
big_of other (bool b) = some (pos (if b then 1 else 0))
big_of other (str s) = int_of_text s
big_of other (big i) = some i
big_of other v = other v

unfoldable pub tagged : (Value → Option ℤ) → Value → Option Value
unfolding big_of
tagged other v = elim (big_of other v) [ none ↦ none | some i ↦ some (big i) ]

-- `isBigIntTag(value) ? BigInt(value.__bigint) : value`, for an object.
unfoldable pub revive_object : (Value → Option ℤ) → Fields → Option Value
unfolding tagged member
revive_object other fs = elim (member tag fs) [ none ↦ some (obj fs) | some v ↦ tagged other v ]

-- What `Option` results are put together by.
abbrev pub map_option : (Values → Value) → Option Values → Option Value
map_option f none = none
map_option f (some vs) = some (f vs)

abbrev pub then_fields : Option Fields → (Fields → Option Value) → Option Value
then_fields none f = none
then_fields (some fs) f = f fs

abbrev pub both_values : Option Value → Option Values → Option Values
both_values none r = none
both_values (some v) none = none
both_values (some v) (some vs) = some (element v vs)

abbrev pub both_fields : Text → Option Value → Option Fields → Option Fields
both_fields k none r = none
both_fields k (some v) none = none
both_fields k (some v) (some fs) = some (field k v fs)

-- The tree that JSON.parse makes under the reviver, which visits the members first.
unfoldable mutual
  pub revive : (Value → Option ℤ) → Value → Option Value
  revive other (arr vs) = map_option arr (revive_values other vs)
  revive other (obj fs) = then_fields (revive_fields other fs) (revive_object other)
  revive other null = some null
  revive other (bool b) = some (bool b)
  revive other (num d) = some (num d)
  revive other (str s) = some (str s)
  revive other (big i) = some (big i)

  pub revive_values : (Value → Option ℤ) → Values → Option Values
  revive_values other no_values = some no_values
  revive_values other (element v vs) = both_values (revive other v) (revive_values other vs)

  pub revive_fields : (Value → Option ℤ) → Fields → Option Fields
  revive_fields other no_fields = some no_fields
  revive_fields other (field k v fs) = both_fields k (revive other v) (revive_fields other fs)

-- The platform's JSON: the text of a tree with no bigint in it, and the tree of a text.
pub record Json : Type 0 where
  pub print : Value → Text
  pub parse : Text → Option Value
  pub int_of_other : Value → Option ℤ

unfoldable pub policy_to_json : Json → Value → Text
unfolding encode
policy_to_json json policy = json.print (encode policy)

abbrev pub revived : Json → Option Value → Option Value
revived json none = none
revived json (some v) = revive json.int_of_other v

-- `none` is an error thrown.
unfoldable pub policy_from_json : Json → Text → Option Value
unfolding revive
policy_from_json json s = revived json (json.parse s)
