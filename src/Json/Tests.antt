-- ===== src/Json/Tests.antt =====
-- Canonical texts by example.
use blackcat_darkmesh_gatewa.Json.{
  whole, negative, not_finite, Json, null, undefined, bool, num, text, arr, obj, nil, cons, hole,
  end, field,
}
use blackcat_darkmesh_gatewa.Json.Canonical.{
  ok, fail, canonical_json_invalid_number, canonical_json_invalid_type, canonicalize_json,
}
use blackcat_darkmesh_gatewa.Json.Canonical.Order.{in_object, swapped, canonicalize_json-SameJson}
use blackcat_darkmesh_gatewa.Json.Stable.{stable_stringify}
use blackcat_darkmesh_gatewa.Json.Agreement.{stable_stringify-canonicalize_json}
use blackcat_darkmesh_gatewa.Base.{◌≡◌, refl, String, true}

abbrev document : Json
document = obj (
    field "b" (arr (cons (num (whole 120)) (cons (num (negative 6)) (cons null nil))))
      (field "a b" (text "q\"\\z") (field "a" (bool true) end)))

abbrev reordered : Json
reordered = obj (
    field "a b" (text "q\"\\z") (
      field "b" (arr (cons (num (whole 120)) (cons (num (negative 6)) (cons null nil))))
        (field "a" (bool true) end)))

abbrev document_text : String
document_text = "{\"a\":true,\"a b\":\"q\\\"\\\\z\",\"b\":[120,-7,null]}"

canonical : canonicalize_json document ≡ ok document_text
unfolding canonicalize_json
canonical = refl

bad_number :
    canonicalize_json (obj (field "a-b" (arr (cons null (cons (num not_finite) nil))) end))
    ≡ fail canonical_json_invalid_number "$[\"a-b\"][1]"
unfolding canonicalize_json
bad_number = refl

sparse :
    canonicalize_json (obj (field "z" (arr (hole nil)) (field "b" undefined end)))
    ≡ fail canonical_json_invalid_type "$.b"
unfolding canonicalize_json
sparse = refl

signed :
    stable_stringify (obj (field "z" (arr (hole (cons undefined nil))) end)) ≡ "{\"z\":[,null]}"
unfolding stable_stringify
signed = refl

canonicalize_json-SameJson_example : canonicalize_json document ≡ canonicalize_json reordered
canonicalize_json-SameJson_example =
    canonicalize_json-SameJson document reordered
      (in_object _ _ (swapped "b" "a b" _ _ _ (λ e. cc)))

stable_stringify-canonicalize_json_example : stable_stringify document ≡ document_text
stable_stringify-canonicalize_json_example =
    stable_stringify-canonicalize_json document document_text canonical
