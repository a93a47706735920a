-- ===== src/Json/Canonical.antt =====
-- src/runtime/core/canonicalJson.ts: the canonical text of a value, or the code and the path of the first
-- thing in it that has none. The message for people is left out. The values of an object are encoded
-- before its entries are sorted; as nothing else happens meanwhile, the first failure in the sorted
-- order is the same.
pub mod Order
use Prim.Native.Char.{code}
use Prim.Native.String.{◌++◌ as ◌+++◌}
use blackcat_darkmesh_gatewa.Json.{
  Number, whole, negative, not_finite, Json, null, undefined, bool, num, text, arr, obj, non_plain,
  Items, nil, cons, hole, Fields, end, field, decimal, quote, number_text, boolean_text, join,
}
use blackcat_darkmesh_gatewa.Json.Keys.{sort_entries}
use blackcat_darkmesh_gatewa.Base.{
  ℕ, zero, suc, ◌+◌, ◌-◌, ◌*◌, ◌/◌, ◌%◌, ◌^◌, ◌≤◌, ◌<◌, min, max, ◌≡◌, refl, sym, ap, ◌∙◌, subst,
  ◌≢◌, ◌↔◌, ◌⊎◌, inl, inr, String, Bool, true, false, ◌&&◌, ◌||◌, not, Option, none, some, List, [],
  ◌∷◌, ◌++◌, map, ◌===◌, eq_iff, eq_refl, arith, ltb, leb, ◌==◌, if◌then◌else◌, is_some, or_else,
  option_map, Bool-cases, Option-cases, length, length-append, All, All-append, Any, leb→le, le→leb,
  ltb→lt, lt→ltb,
}

pub data CanonicalJsonErrorCode : Type 0 where
  canonical_json_invalid_number : CanonicalJsonErrorCode
  canonical_json_invalid_type : CanonicalJsonErrorCode
  canonical_json_non_plain_object : CanonicalJsonErrorCode
  canonical_json_sparse_array : CanonicalJsonErrorCode

pub data CanonicalResult (A : Type 0) : Type 0 where
  ok : A → CanonicalResult A
  fail : CanonicalJsonErrorCode → String → CanonicalResult A

abbrev is_name_start : ℕ → Bool
is_name_start c = (leb b'A' c && leb c b'Z') || (leb b'a' c && leb c b'z') || c == b'_' || c == b'$'

unfoldable pub is_name_rest : String → Bool
is_name_rest String.[] = true
is_name_rest (String.◌∷◌ c s) =
    let rest = is_name_rest s in
    (is_name_start (code c) || (leb b'0' (code c) && leb (code c) b'9')) && rest

-- `/^[A-Za-z_$][A-Za-z0-9_$]*$/u`
unfoldable pub is_name : String → Bool
unfolding is_name_rest
is_name String.[] = false
is_name (String.◌∷◌ c s) = is_name_start (code c) && is_name_rest s

unfoldable pub format_path_segment : String → String
unfolding is_name quote
format_path_segment key = if is_name key then "." +++ key else "[" +++ (quote key +++ "]")

unfoldable pub index_path : String → ℕ → String
unfolding decimal
index_path path index = path +++ ("[" +++ (decimal index +++ "]"))

-- `parts.push`: the first failure is the result.
unfoldable pub push_part :
    CanonicalResult String → CanonicalResult (List String) → CanonicalResult (List String)
push_part (fail code path) parts = fail code path
push_part (ok part) (fail code path) = fail code path
push_part (ok part) (ok parts) = ok (part ∷ parts)

abbrev pub property : String → CanonicalResult String → CanonicalResult String
property key (fail code path) = fail code path
property key (ok value) = ok (quote key +++ (":" +++ value))

unfoldable pub properties : List (String × CanonicalResult String) → CanonicalResult (List String)
unfolding push_part quote
properties [] = ok []
properties ((key, value) ∷ entries) = push_part (property key value) (properties entries)

unfoldable pub enclose : String → String → CanonicalResult (List String) → CanonicalResult String
unfolding join
enclose left right (fail code path) = fail code path
enclose left right (ok parts) = ok (left +++ (join parts +++ right))

unfoldable pub encode_number : Number → String → CanonicalResult String
unfolding number_text
encode_number not_finite path = fail canonical_json_invalid_number path
encode_number (whole n) path = ok (number_text (whole n))
encode_number (negative n) path = ok (number_text (negative n))

unfoldable mutual
  unfolding encode_number enclose properties sort_entries push_part index_path format_path_segment
      quote

  pub encode_canonical_json_value : Json → String → CanonicalResult String
  encode_canonical_json_value null path = ok "null"
  encode_canonical_json_value undefined path = fail canonical_json_invalid_type path
  encode_canonical_json_value (bool b) path = ok (boolean_text b)
  encode_canonical_json_value (num n) path = encode_number n path
  encode_canonical_json_value (text s) path = ok (quote s)
  encode_canonical_json_value (arr items) path = enclose "[" "]" (encode_items items path 0)
  encode_canonical_json_value (obj fields) path =
      enclose "{" "}" (properties (sort_entries (encode_fields fields path)))
  encode_canonical_json_value (non_plain fields) path = fail canonical_json_non_plain_object path

  pub encode_items : Items → String → ℕ → CanonicalResult (List String)
  encode_items nil path index = ok []
  encode_items (cons x items) path index =
      push_part (encode_canonical_json_value x (index_path path index))
        (encode_items items path (index + 1))
  encode_items (hole items) path index = fail canonical_json_sparse_array (index_path path index)

  pub encode_fields : Fields → String → List (String × CanonicalResult String)
  encode_fields end path = []
  encode_fields (field key x fields) path =
      (key, encode_canonical_json_value x (path +++ format_path_segment key))
      ∷ encode_fields fields path

unfoldable pub canonicalize_json : Json → CanonicalResult String
unfolding encode_canonical_json_value
canonicalize_json value = encode_canonical_json_value value "$"
