-- ===== src/Policy/Serde/RoundTrip.antt =====
-- A policy written to JSON reads back as it was.
use agentct.Base.{
  text_eq, ℤ, Bool, true, false, not, ◌&&◌, Option, none, some, ◌==◌, ◌^◌, ◌≡◌, refl, ap, ◌∙◌,
  arith,
}
use agentct.Base.Double.{is_finite}
use agentct.Base.Decimal.RoundTrip.{int_of_text-int_text}
use agentct.Base.Js.{
  Value, Values, Fields, null, bool, num, str, big, arr, obj, no_values, element, no_fields, field,
  member,
}
use agentct.Policy.Serde.{
  tag, json_number, encode, encode_values, encode_fields, big_of, tagged, revive_object, map_option,
  then_fields, revive, revive_values, revive_fields, Json, policy_to_json, policy_from_json,
  revived,
}

abbrev absent : Option Value → Bool
absent none = true
absent (some _) = false

-- A tree with finite numbers, no negative zero, and no field that is named like the tag.
unfoldable mutual
  pub plain : Value → Bool
  plain (num d) = is_finite d && not (d.bits == 2 ^ 63)
  plain (arr vs) = plain_values vs
  plain (obj fs) = absent (member tag fs) && plain_fields fs
  plain null = true
  plain (bool b) = true
  plain (str s) = true
  plain (big i) = true

  pub plain_values : Values → Bool
  plain_values no_values = true
  plain_values (element v vs) = plain v && plain_values vs

  pub plain_fields : Fields → Bool
  plain_fields no_fields = true
  plain_fields (field k v fs) = plain v && plain_fields fs

revive_object-encode :
    (other : Value → Option ℤ) (fs : Fields)
    → absent (member tag fs) ≡ true
    → revive_object other fs ≡ some (obj fs)
unfolding revive_object
revive_object-encode other fs h = ground arith

module _ (other : Value → Option ℤ) where
  revive_tag : (i : ℤ) → revive other (encode (big i)) ≡ some (big i)
  unfolding encode revive revive_object member tagged big_of text_eq
  revive_tag i = ground (arith, int_of_text-int_text i)

  mutual
    unfolding encode revive plain json_number

    revive-encode : (v : Value) → plain v ≡ true → revive other (encode v) ≡ some v
    revive-encode null h = refl
    revive-encode (bool b) h = refl
    revive-encode (num d) h = ground arith
    revive-encode (str s) h = refl
    revive-encode (big i) h = revive_tag i
    revive-encode (arr vs) h = ap (map_option arr) (revive-encode_values vs h)
    revive-encode (obj fs) h =
        ap (λ (o : Option Fields). then_fields o (revive_object other))
          (revive-encode_fields fs (ground arith))
        ∙ revive_object-encode other fs (ground arith)

    revive-encode_values :
        (vs : Values) → plain_values vs ≡ true → revive_values other (encode_values vs) ≡ some vs
    revive-encode_values no_values h = refl
    revive-encode_values (element v vs) h = ground (arith, revive-encode v, revive-encode_values vs)

    revive-encode_fields :
        (fs : Fields) → plain_fields fs ≡ true → revive_fields other (encode_fields fs) ≡ some fs
    revive-encode_fields no_fields h = refl
    revive-encode_fields (field k v fs) h = ground (arith, revive-encode v, revive-encode_fields fs)

-- What `policyToJSON` writes for a tree of policy data, `policyFromJSON` reads as the same tree,
-- bigints and all, where the platform's JSON reads back the text that it wrote, no number is
-- infinite, NaN or the negative zero, and no object has a field named like the tag.
pub policy_from_json-policy_to_json :
    (json : Json) (policy : Value)
    → json.parse (json.print (encode policy)) ≡ some (encode policy)
    → plain policy ≡ true
    → policy_from_json json (policy_to_json json policy) ≡ some policy
unfolding policy_to_json policy_from_json
policy_from_json-policy_to_json json policy h p =
    ap (revived json) h ∙ revive-encode json.int_of_other policy p
