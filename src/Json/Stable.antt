-- ===== src/Json/Stable.antt =====
-- stableStringify of workers/secrets-worker/src/routeAssertion.ts and routeAssertionVerify.ts, which
-- have the same text: the payload that is signed.
use Prim.Native.String.{◌++◌ as ◌+++◌}
use blackcat_darkmesh_gatewa.Json.{
  Json, null, undefined, bool, num, text, arr, obj, non_plain, Items, nil, cons, hole, Fields, end,
  field, quote, number_text, boolean_text, join,
}
use blackcat_darkmesh_gatewa.Json.Keys.{sort_entries}
use blackcat_darkmesh_gatewa.Base.{String, List, [], ◌∷◌}

unfoldable pub stable_properties : List (String × String) → List String
unfolding quote
stable_properties [] = []
stable_properties ((key, value) ∷ entries) =
    (quote key +++ (":" +++ value)) ∷ stable_properties entries

-- An index that an array lacks is joined as an empty text.
unfoldable mutual
  unfolding number_text quote join stable_properties sort_entries

  pub stable_stringify : Json → String
  stable_stringify null = "null"
  stable_stringify undefined = "null"
  stable_stringify (bool b) = boolean_text b
  stable_stringify (num n) = number_text n
  stable_stringify (text s) = quote s
  stable_stringify (arr items) = "[" +++ (join (stable_items items) +++ "]")
  stable_stringify (obj fields) =
      "{" +++ (join (stable_properties (sort_entries (stable_fields fields))) +++ "}")
  stable_stringify (non_plain fields) =
      "{" +++ (join (stable_properties (sort_entries (stable_fields fields))) +++ "}")

  pub stable_items : Items → List String
  stable_items nil = []
  stable_items (cons x items) = stable_stringify x ∷ stable_items items
  stable_items (hole items) = "" ∷ stable_items items

  pub stable_fields : Fields → List (String × String)
  stable_fields end = []
  stable_fields (field key x fields) = (key, stable_stringify x) ∷ stable_fields fields
