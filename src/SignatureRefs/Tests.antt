-- ===== src/SignatureRefs/Tests.antt =====
-- Lists of references by example.
use blackcat_darkmesh_gatewa.SignatureRefs.{
  ok, fail, ref_must_not_be_empty, unique_from, validate_signature_ref_list,
  validate_expected_signature_refs,
}
use blackcat_darkmesh_gatewa.Text.{trim, trim_start, trim_end}
use blackcat_darkmesh_gatewa.Base.{◌≡◌, refl, String, false, Option, some, List, [], ◌∷◌}

abbrev values : List (Option String)
values = some " a" ∷ some "b" ∷ some "a " ∷ []

valid : validate_signature_ref_list (some values) ≡ ok ("a" ∷ "b" ∷ [])
unfolding validate_signature_ref_list unique_from trim trim_start trim_end
valid = refl

blank :
    validate_signature_ref_list (some (some "a" ∷ some " " ∷ [])) ≡ fail (ref_must_not_be_empty 1)
unfolding validate_signature_ref_list trim trim_start trim_end
blank = refl

matched :
    validate_expected_signature_refs (some values) (some (some "b" ∷ some "c" ∷ [])) false
    ≡ ok ("b" ∷ [])
unfolding validate_expected_signature_refs validate_signature_ref_list unique_from trim trim_start
    trim_end
matched = refl
