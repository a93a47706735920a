-- ===== src/Json/Agreement.antt =====
-- The canonical text and the payload that the secrets worker signs are the same text.
use Prim.Native.String.{◌++◌ as ◌+++◌}
use blackcat_darkmesh_gatewa.Json.{
  Number, whole, negative, not_finite, Json, null, undefined, bool, num, text, arr, obj, non_plain,
  Items, nil, cons, hole, Fields, end, field, quote, number_text, boolean_text, join,
}
use blackcat_darkmesh_gatewa.Json.Keys.{sort_entries, insert_entry, before}
use blackcat_darkmesh_gatewa.Json.Canonical.{
  CanonicalResult, ok, fail, enclose, property, properties, push_part, index_path,
  format_path_segment, encode_number, encode_canonical_json_value, encode_items, encode_fields,
  canonicalize_json,
}
use blackcat_darkmesh_gatewa.Json.Stable.{
  stable_stringify, stable_items, stable_fields, stable_properties,
}
use blackcat_darkmesh_gatewa.Base.{
  ℕ, ◌+◌, ◌≡◌, refl, inl, inr, String, List, [], ◌∷◌, arith, Bool-cases,
}

-- A result that is a text is that text.
abbrev Says : CanonicalResult String → String → Type 0
Says r s = (t : String) → r ≡ ok t → s ≡ t

-- Entries with the same keys in the same order, and values that agree.
abbrev Agree : List (String × CanonicalResult String) → List (String × String) → Type 0
Agree [] [] = Unit {0}
Agree [] (s ∷ ss) = ⊥
Agree (r ∷ rs) [] = ⊥
Agree ((k, r) ∷ rs) ((j, s) ∷ ss) = (k ≡ j) × Says r s × Agree rs ss

insert_entry-Agree :
    (k : String) (r : CanonicalResult String) (s : String)
    (rs : List (String × CanonicalResult String)) (ss : List (String × String))
    → Says r s
    → Agree rs ss
    → Agree (insert_entry k r rs) (insert_entry k s ss)
unfolding insert_entry
insert_entry-Agree k r s [] [] h a = (refl, h, tt)
insert_entry-Agree k r s [] (x ∷ ss) h a = elim a [ ]
insert_entry-Agree k r s (x ∷ rs) [] h a = elim a [ ]
insert_entry-Agree k r s ((i, x) ∷ rs) ((j, y) ∷ ss) h a = elim (Bool-cases (before k j)) [
  | inl e ↦ rw (a.0, e) (refl, h, (refl, a.1, a.2))
  | inr e ↦ rw (a.0, e) (refl, a.1, insert_entry-Agree k r s rs ss h a.2)
]

sort_entries-Agree :
    (rs : List (String × CanonicalResult String)) (ss : List (String × String))
    → Agree rs ss
    → Agree (sort_entries rs) (sort_entries ss)
unfolding sort_entries
sort_entries-Agree [] [] a = tt
sort_entries-Agree [] (x ∷ ss) a = elim a [ ]
sort_entries-Agree (x ∷ rs) [] a = elim a [ ]
sort_entries-Agree ((k, r) ∷ rs) ((j, s) ∷ ss) a = rw (← a.0) (
    insert_entry-Agree k r s (sort_entries rs) (sort_entries ss) a.1 (sort_entries-Agree rs ss a.2))

push_part-ok :
    (r : CanonicalResult String) (rs : CanonicalResult (List String)) (ps : List String)
    → push_part r rs ≡ ok ps
    → (p : String) × (qs : List String) × (r ≡ ok p) × (rs ≡ ok qs) × (ps ≡ p ∷ qs)
unfolding push_part
push_part-ok (fail c p) rs ps h = cc
push_part-ok (ok p) (fail c q) ps h = cc
push_part-ok (ok p) (ok qs) ps h = (p, qs, refl, refl, ground arith)

property-ok :
    (k : String) (r : CanonicalResult String) (p : String)
    → property k r ≡ ok p
    → (t : String) × (r ≡ ok t) × (quote k +++ (":" +++ t) ≡ p)
property-ok k (fail c q) p h = cc
property-ok k (ok t) p h = (t, refl, ground arith)

properties-Agree :
    (rs : List (String × CanonicalResult String)) (ss : List (String × String)) (ps : List String)
    → Agree rs ss
    → properties rs ≡ ok ps
    → stable_properties ss ≡ ps
unfolding properties stable_properties
properties-Agree [] [] ps a h = ground arith
properties-Agree [] (s ∷ ss) ps a h = elim a [ ]
properties-Agree (r ∷ rs) [] ps a h = elim a [ ]
properties-Agree ((k, r) ∷ rs) ((j, s) ∷ ss) ps a h =
    let (p, qs, hp, hq, e) = push_part-ok (property k r) (properties rs) ps h in
    let (t, ht, et) = property-ok k r p hp in
    rw (e, ← et, ← a.0, a.1 t ht, properties-Agree rs ss qs a.2 hq) refl

enclose-ok :
    (l r : String) (ps : CanonicalResult (List String)) (t : String)
    → enclose l r ps ≡ ok t
    → (qs : List String) × (ps ≡ ok qs) × (l +++ (join qs +++ r) ≡ t)
unfolding enclose
enclose-ok l r (fail c p) t h = cc
enclose-ok l r (ok qs) t h = (qs, refl, ground arith)

encode_number-Says : (n : Number) (path : String) → Says (encode_number n path) (number_text n)
unfolding encode_number
encode_number-Says (whole n) path t h = ground arith
encode_number-Says (negative n) path t h = ground arith
encode_number-Says not_finite path t h = cc

ok-Says : (s : String) → Says (ok s) s
ok-Says s t h = ground arith

mutual
  unfolding encode_canonical_json_value stable_stringify

  encode-Says :
      (x : Json) (path : String) → Says (encode_canonical_json_value x path) (stable_stringify x)
  encode-Says null path t h = ok-Says "null" t h
  encode-Says undefined path t h = cc
  encode-Says (bool b) path t h = ok-Says (boolean_text b) t h
  encode-Says (num n) path t h = encode_number-Says n path t h
  encode-Says (text s) path t h = ok-Says (quote s) t h
  encode-Says (arr items) path t h =
      let (qs, hq, e) = enclose-ok "[" "]" (encode_items items path 0) t h in
      rw (encode_items-stable items path 0 qs hq) e
  encode-Says (obj fields) path t h =
      let (qs, hq, e) =
        enclose-ok "{" "}" (properties (sort_entries (encode_fields fields path))) t h in
      rw
        (properties-Agree (sort_entries (encode_fields fields path))
          (sort_entries (stable_fields fields)) qs
          (sort_entries-Agree (encode_fields fields path) (stable_fields fields)
            (encode_fields-Agree fields path))
          hq)
        e
  encode-Says (non_plain fields) path t h = cc

  encode_items-stable :
      (items : Items) (path : String) (i : ℕ) (ps : List String)
      → encode_items items path i ≡ ok ps
      → stable_items items ≡ ps
  encode_items-stable nil path i ps h = ground arith
  encode_items-stable (cons x items) path i ps h =
      let (p, qs, hp, hq, e) =
        push_part-ok (encode_canonical_json_value x (index_path path i))
          (encode_items items path (i + 1)) ps h in
      rw (e, encode-Says x (index_path path i) p hp, encode_items-stable items path (i + 1) qs hq)
        refl
  encode_items-stable (hole items) path i ps h = cc

  encode_fields-Agree :
      (fields : Fields) (path : String) → Agree (encode_fields fields path) (stable_fields fields)
  encode_fields-Agree end path = tt
  encode_fields-Agree (field k x fields) path =
      (refl, encode-Says x (path +++ format_path_segment k), encode_fields-Agree fields path)

-- Where `canonicalizeJson` accepts a value, `stableStringify` gives the same text: gateway and secrets
-- worker agree on what is hashed and signed.
pub stable_stringify-canonicalize_json :
    (x : Json) (t : String) → canonicalize_json x ≡ ok t → stable_stringify x ≡ t
unfolding canonicalize_json
stable_stringify-canonicalize_json x t h = encode-Says x "$" t h
