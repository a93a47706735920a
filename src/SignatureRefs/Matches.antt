-- ===== src/SignatureRefs/Matches.antt =====
-- Properties of src/runtime/crypto/signatureRefs.ts.
use blackcat_darkmesh_gatewa.SignatureRefs.{
  SignatureRefResult, ok, fail, with_ref, unique_from, unique_signature_refs, texts_of, first_blank,
  is_empty, validate_texts, validate_signature_ref_list, intersect_signature_refs, match_refs,
  is_ok, signature_ref_lists_overlap,
}
use blackcat_darkmesh_gatewa.Text.{trim}
use blackcat_darkmesh_gatewa.Auth.{includes}
use blackcat_darkmesh_gatewa.Base.{
  ◌≡◌, refl, inl, inr, String, Bool, false, ◌&&◌, ◌||◌, not, Option, some, List, [], ◌∷◌, ◌++◌,
  ◌===◌, eq_iff, arith, Bool-cases, Option-cases,
}

-- Some reference of the left list is in the right one.
abbrev meets : List String → List String → Bool
meets [] right = false
meets (ref ∷ left) right = includes ref right || meets left right

is_empty-intersect :
    (left right : List String)
    → not (is_empty (intersect_signature_refs left right)) ≡ meets left right
is_empty-intersect [] right = refl
is_empty-intersect (ref ∷ left) right = ground (arith, is_empty-intersect left right)

meets-nil : (left : List String) → meets left [] ≡ false
meets-nil [] = refl
meets-nil (ref ∷ left) = meets-nil left

meets-cons :
    (left : List String) (y : String) (right : List String)
    → meets left (y ∷ right) ≡ (includes y left || meets left right)
meets-cons [] y right = refl
meets-cons (ref ∷ left) y right =
    ground (arith, meets-cons left y right, eq_iff y ref, eq_iff ref y)

meets_comm : (left right : List String) → meets left right ≡ meets right left
meets_comm left [] = meets-nil left
meets_comm left (y ∷ right) = ground (arith, meets-cons left y right, meets_comm left right)

overlap_match :
    (a b : SignatureRefResult) → is_ok (match_refs false a b) ≡ is_ok (match_refs false b a)
overlap_match (fail e) (fail f) = refl
overlap_match (fail e) (ok right) = refl
overlap_match (ok left) (fail f) = refl
overlap_match (ok left) (ok right) =
    ground
      (arith, is_empty-intersect left right, is_empty-intersect right left, meets_comm left right)

-- Whether two lists of references overlap is the same whichever of them comes first, for lists that are
-- refused too.
pub signature_ref_lists_overlap_comm :
    (left right : Option (List (Option String)))
    → signature_ref_lists_overlap left right ≡ signature_ref_lists_overlap right left
unfolding signature_ref_lists_overlap
signature_ref_lists_overlap_comm left right =
    overlap_match (validate_signature_ref_list left) (validate_signature_ref_list right)

-- No reference stands twice.
unfoldable pub Distinct : List String → Type 0
Distinct [] = Unit
Distinct (ref ∷ refs) = (includes ref refs ≡ false) × Distinct refs

-- Some reference is `x` without the white space around it, and not empty.
unfoldable pub lists_ref : String → List String → Bool
lists_ref x [] = false
lists_ref x (ref ∷ refs) = (not (trim ref === "") && trim ref === x) || lists_ref x refs

includes-append :
    (x y : String) (ys : List String) → includes x (ys ++ y ∷ []) ≡ (includes x ys || y === x)
includes-append x y [] = ground arith
includes-append x y (z ∷ ys) = ground (arith, includes-append x y ys)

append-Distinct :
    (y : String) (ys : List String) → Distinct ys → includes y ys ≡ false → Distinct (ys ++ y ∷ [])
unfolding Distinct
append-Distinct y [] d new = (refl, tt)
append-Distinct y (z ∷ ys) d new =
    ground (arith, append-Distinct y ys, includes-append z y ys, eq_iff y z, eq_iff z y)

with_ref-Distinct : (y : String) (ys : List String) → Distinct ys → Distinct (with_ref y ys)
with_ref-Distinct y ys d = ground (arith, d, append-Distinct y ys)

unique_from-Distinct :
    (refs normalized : List String) → Distinct normalized → Distinct (unique_from refs normalized)
unfolding unique_from
unique_from-Distinct [] normalized d = d
unique_from-Distinct (ref ∷ refs) normalized d =
    unique_from-Distinct refs (with_ref (trim ref) normalized)
      (with_ref-Distinct (trim ref) normalized d)

includes-unique_from :
    (x : String) (refs normalized : List String)
    → includes x (unique_from refs normalized) ≡ (includes x normalized || lists_ref x refs)
unfolding unique_from lists_ref
includes-unique_from x [] normalized = ground arith
includes-unique_from x (ref ∷ refs) normalized = ground (
  arith,
  includes-unique_from x refs (with_ref (trim ref) normalized),
  includes-append x (trim ref) normalized,
  eq_iff (trim ref) x,
)

nil-Distinct : Distinct []
unfolding Distinct
nil-Distinct = tt

accepted :
    (texts refs : List String) → validate_texts texts ≡ ok refs → unique_signature_refs texts ≡ refs
accepted texts refs done = elim (Option-cases (first_blank 0 texts)) [
  | inr (index, e) ↦ ground (arith, e, done)
  | inl e ↦ elim (Bool-cases (is_empty (unique_signature_refs texts))) [
    | inl nothing ↦ ground (arith, e, nothing, done)
    | inr some_ref ↦ ground (arith, e, some_ref, done)
  ]
]

-- An accepted list. Its references are distinct, and they are what the texts of the list are without the
-- white space around them.
pub validate_signature_ref_list-ok :
    (values : List (Option String)) (texts refs : List String)
    → texts_of values ≡ some texts
    → validate_signature_ref_list (some values) ≡ ok refs
    → Distinct refs × ((x : String) → includes x refs ≡ lists_ref x texts)
unfolding validate_signature_ref_list
validate_signature_ref_list-ok [] texts refs only done = cc
validate_signature_ref_list-ok (value ∷ values) texts refs only done =
    let same : unique_signature_refs texts ≡ refs =
      accepted texts refs (rw (only, validate_signature_ref_list) at done) in
    rw (← same) (unique_from-Distinct texts [] nil-Distinct, λ x. includes-unique_from x texts [])
