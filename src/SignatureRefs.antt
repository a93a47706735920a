-- ===== src/SignatureRefs.antt =====
-- src/runtime/crypto/signatureRefs.ts: lists of signature references and whether two of them match. A value of
-- unknown type is `none` if it is no list, and an element is `none` if it is no text.
pub mod Matches
mod Tests
use blackcat_darkmesh_gatewa.Text.{trim}
use blackcat_darkmesh_gatewa.Auth.{includes}
use blackcat_darkmesh_gatewa.Base.{
  ℕ, zero, suc, ◌+◌, ◌-◌, ◌*◌, ◌/◌, ◌%◌, ◌^◌, ◌≤◌, ◌<◌, min, max, ◌≡◌, refl, sym, ap, ◌∙◌, subst,
  ◌≢◌, ◌↔◌, ◌⊎◌, inl, inr, String, Bool, true, false, ◌&&◌, ◌||◌, not, Option, none, some, List, [],
  ◌∷◌, ◌++◌, map, ◌===◌, eq_iff, eq_refl, arith, ltb, leb, ◌==◌, if◌then◌else◌, is_some, or_else,
  option_map, Bool-cases, Option-cases, length, length-append, All, All-append, Any, leb→le, le→leb,
  ltb→lt, lt→ltb,
}

pub data SignatureRefError : Type 0 where
  must_be_texts : SignatureRefError
  must_not_be_empty : SignatureRefError
  ref_must_not_be_empty : ℕ → SignatureRefError
  must_match_exactly : SignatureRefError
  do_not_overlap : SignatureRefError

pub data SignatureRefResult : Type 0 where
  ok : List String → SignatureRefResult
  fail : SignatureRefError → SignatureRefResult

-- `seen` holds the same references as `normalized`, so it is looked for there.
abbrev pub with_ref : String → List String → List String
with_ref trimmed normalized =
    if trimmed === "" || includes trimmed normalized then normalized else normalized ++ trimmed ∷ []

unfoldable pub unique_from : List String → List String → List String
unique_from [] normalized = normalized
unique_from (ref ∷ refs) normalized = unique_from refs (with_ref (trim ref) normalized)

abbrev pub unique_signature_refs : List String → List String
unique_signature_refs refs = unique_from refs []

-- The texts of the list, if it has nothing else.
abbrev pub texts_of : List (Option String) → Option (List String)
texts_of [] = some []
texts_of (none ∷ values) = none
texts_of (some value ∷ values) = option_map (λ texts. value ∷ texts) (texts_of values)

-- The index of the first reference that is only white space.
abbrev pub first_blank : ℕ → List String → Option ℕ
first_blank index [] = none
first_blank index (ref ∷ refs) =
    if trim ref === "" then some index else first_blank (index + 1) refs

abbrev pub is_empty : List String → Bool
is_empty [] = true
is_empty (ref ∷ refs) = false

abbrev pub nonempty_list : List String → SignatureRefResult
nonempty_list refs = if is_empty refs then fail must_not_be_empty else ok refs

abbrev pub validate_texts : List String → SignatureRefResult
validate_texts refs = elim (first_blank 0 refs) [
  | some index ↦ fail (ref_must_not_be_empty index)
  | none ↦ nonempty_list (unique_signature_refs refs)
]

unfoldable pub validate_signature_ref_list : Option (List (Option String)) → SignatureRefResult
validate_signature_ref_list none = fail must_be_texts
validate_signature_ref_list (some []) = fail must_not_be_empty
validate_signature_ref_list (some (value ∷ values)) = elim (texts_of (value ∷ values)) [
  | none ↦ fail must_be_texts
  | some refs ↦ validate_texts refs
]

abbrev pub all_in : List String → List String → Bool
all_in [] right = true
all_in (ref ∷ left) right = includes ref right && all_in left right

abbrev pub same_signature_ref_set : List String → List String → Bool
same_signature_ref_set left right = length left == length right && all_in left right

abbrev pub intersect_signature_refs : List String → List String → List String
intersect_signature_refs [] right = []
intersect_signature_refs (ref ∷ left) right =
    let rest = intersect_signature_refs left right in
    if includes ref right then ref ∷ rest else rest

abbrev pub overlapping : List String → SignatureRefResult
overlapping refs = if is_empty refs then fail do_not_overlap else ok refs

abbrev pub match_refs : Bool → SignatureRefResult → SignatureRefResult → SignatureRefResult
match_refs strict (fail error) expected = fail error
match_refs strict (ok actual) (fail error) = fail error
match_refs true (ok actual) (ok expected) =
    if same_signature_ref_set actual expected then ok actual else fail must_match_exactly
match_refs false (ok actual) (ok expected) = overlapping (intersect_signature_refs actual expected)

unfoldable pub validate_expected_signature_refs :
    Option (List (Option String)) → Option (List (Option String)) → Bool → SignatureRefResult
validate_expected_signature_refs actual expected strict =
    match_refs strict (validate_signature_ref_list actual) (validate_signature_ref_list expected)

abbrev pub is_ok : SignatureRefResult → Bool
is_ok (ok refs) = true
is_ok (fail error) = false

unfoldable pub signature_ref_lists_overlap :
    Option (List (Option String)) → Option (List (Option String)) → Bool
unfolding validate_expected_signature_refs
signature_ref_lists_overlap left right = is_ok (validate_expected_signature_refs left right false)
