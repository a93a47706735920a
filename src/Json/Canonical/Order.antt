-- ===== src/Json/Canonical/Order.antt =====
-- The canonical text of a value, and its failure, do not depend on the order of the keys.
use Prim.Native.String.{◌++◌ as ◌+++◌}
use blackcat_darkmesh_gatewa.Json.{Json, arr, obj, Items, nil, cons, hole, Fields, end, field}
use blackcat_darkmesh_gatewa.Json.Keys.{sort_entries, insert_entry_comm}
use blackcat_darkmesh_gatewa.Json.Canonical.{
  enclose, properties, index_path, format_path_segment, encode_canonical_json_value, encode_items,
  encode_fields, canonicalize_json,
}
use blackcat_darkmesh_gatewa.Base.{ℕ, ◌+◌, ◌≡◌, refl, ap, ◌∙◌, ◌≢◌, String}

-- Values that differ only in the order of the keys of their objects, at any depth.
mutual
  pub data SameJson : Json → Json → Type 0 where
    same : (x : Json) → SameJson x x
    in_array : (xs ys : Items) → SameItems xs ys → SameJson (arr xs) (arr ys)
    in_object : (fs gs : Fields) → SameFields fs gs → SameJson (obj fs) (obj gs)

  pub data SameItems : Items → Items → Type 0 where
    same_nil : SameItems nil nil
    same_cons :
        (x y : Json) (xs ys : Items)
        → SameJson x y
        → SameItems xs ys
        → SameItems (cons x xs) (cons y ys)
    same_hole : (xs ys : Items) → SameItems xs ys → SameItems (hole xs) (hole ys)

  pub data SameFields : Fields → Fields → Type 0 where
    same_end : SameFields end end
    same_field :
        (k : String) (x y : Json) (fs gs : Fields)
        → SameJson x y
        → SameFields fs gs
        → SameFields (field k x fs) (field k y gs)
    swapped :
        (k j : String) (x y : Json) (fs : Fields)
        → k ≢ j
        → SameFields (field k x (field j y fs)) (field j y (field k x fs))
    chained : (fs gs hs : Fields) → SameFields fs gs → SameFields gs hs → SameFields fs hs

mutual
  unfolding encode_canonical_json_value sort_entries

  encode-SameJson :
      (x y : Json)
      → SameJson x y
      → (path : String) → encode_canonical_json_value x path ≡ encode_canonical_json_value y path
  encode-SameJson x y (same _) path = refl
  encode-SameJson x y (in_array xs ys s) path =
      ap (enclose "[" "]") (encode-SameItems xs ys s path 0)
  encode-SameJson x y (in_object fs gs s) path =
      ap (λ entries. enclose "{" "}" (properties entries)) (encode-SameFields fs gs s path)

  encode-SameItems :
      (xs ys : Items)
      → SameItems xs ys
      → (path : String) (i : ℕ) → encode_items xs path i ≡ encode_items ys path i
  encode-SameItems xs ys same_nil path i = refl
  encode-SameItems xs ys (same_cons x y xs' ys' s r) path i =
      rw (encode-SameJson x y s (index_path path i), encode-SameItems xs' ys' r path (i + 1)) refl
  encode-SameItems xs ys (same_hole xs' ys' r) path i = refl

  encode-SameFields :
      (fs gs : Fields)
      → SameFields fs gs
      → (path : String)
      → sort_entries (encode_fields fs path) ≡ sort_entries (encode_fields gs path)
  encode-SameFields fs gs same_end path = refl
  encode-SameFields fs gs (same_field k x y fs' gs' s r) path =
      rw (encode-SameJson x y s (path +++ format_path_segment k), encode-SameFields fs' gs' r path)
        refl
  encode-SameFields fs gs (swapped k j x y fs' ne) path =
      insert_entry_comm k j _ _ (sort_entries (encode_fields fs' path)) ne
  encode-SameFields fs gs (chained _ hs _ s r) path =
      encode-SameFields fs hs s path ∙ encode-SameFields hs gs r path

-- Two values that differ only in the order of the keys of their objects, at any depth and in any
-- permutation of different keys, have the same canonical text, or fail with the same code at the
-- same path.
pub canonicalize_json-SameJson :
    (x y : Json) → SameJson x y → canonicalize_json x ≡ canonicalize_json y
unfolding canonicalize_json
canonicalize_json-SameJson x y s = encode-SameJson x y s "$"
