-- ===== src/Auth/Allowed.antt =====
-- Who is allowed by src/runtime/auth/policy.ts, in terms of the values as they are configured.
use blackcat_darkmesh_gatewa.Auth.{
  allowed, refused, role_forbidden, signature_ref_forbidden, PolicyValueInput, to_iterable,
  default_normalize, normalize_role, includes, add, add_entry, transformed, normalize_from,
  normalize_policy_values, is_candidate_allowed, public_role_of, is_empty, require_allowed_role,
  add_all, require_authorized_signature_ref,
}
use blackcat_darkmesh_gatewa.Base.{
  ◌≡◌, refl, inl, inr, String, Bool, false, ◌&&◌, ◌||◌, not, Option, none, some, List, [], ◌∷◌,
  ◌++◌, ◌===◌, eq_iff, arith, if◌then◌else◌, or_else, Option-cases,
}

abbrev is_named : Option String → Bool
is_named none = false
is_named (some x) = not (x === "")

-- Some value is `x` after the transformation.
unfoldable pub names : (String → Option String) → String → List (Option String) → Bool
names transform x [] = false
names transform x (value ∷ values) =
    is_candidate_allowed (transformed transform value) (x ∷ []) || names transform x values

includes-append :
    (x y : String) (ys : List String) → includes x (ys ++ y ∷ []) ≡ (includes x ys || y === x)
includes-append x y [] = ground arith
includes-append x y (z ∷ ys) = ground (arith, includes-append x y ys)

includes-add :
    (x y : String) (ys : List String) → includes x (add y ys) ≡ (includes x ys || y === x)
includes-add x y ys = ground (arith, includes-append x y ys, eq_iff y x)

includes-normalize_from :
    (transform : String → Option String) (x : String) (values : List (Option String))
    (set : List String)
    → includes x (normalize_from transform values set)
      ≡ (includes x set || names transform x values)
unfolding normalize_from names
includes-normalize_from transform x [] set = ground arith
includes-normalize_from transform x (value ∷ values) set =
    elim (Option-cases (transformed transform value)) [
      | inl e ↦ ground (arith, e, includes-normalize_from transform x values set)
      | inr (entry, e) ↦ ground (
        arith,
        e,
        includes-normalize_from transform x values (add_entry (some entry) set),
        includes-add x entry set,
        eq_iff x entry,
        eq_iff entry x,
        eq_iff entry "",
      )
    ]

includes-add_all :
    (x : String) (xs set : List String)
    → includes x (add_all xs set) ≡ (includes x set || includes x xs)
includes-add_all x [] set = ground arith
includes-add_all x (y ∷ xs) set =
    ground (arith, includes-add_all x xs (add y set), includes-add x y set)

-- Some value is a text that is not empty after the transformation.
unfoldable pub names_any : (String → Option String) → List (Option String) → Bool
names_any transform [] = false
names_any transform (value ∷ values) =
    is_named (transformed transform value) || names_any transform values

is_empty-add : (y : String) (set : List String) → is_empty (add y set) ≡ false
is_empty-add y [] = ground arith
is_empty-add y (x ∷ set) = ground arith

is_empty-normalize_from :
    (transform : String → Option String) (values : List (Option String)) (set : List String)
    → is_empty (normalize_from transform values set)
      ≡ (is_empty set && not (names_any transform values))
unfolding normalize_from names_any
is_empty-normalize_from transform [] set = ground arith
is_empty-normalize_from transform (value ∷ values) set =
    elim (Option-cases (transformed transform value)) [
      | inl e ↦ ground (arith, e, is_empty-normalize_from transform values set)
      | inr (entry, e) ↦ ground (
        arith,
        e,
        is_empty-normalize_from transform values (add_entry (some entry) set),
        is_empty-add entry set,
      )
    ]

-- A candidate that is there, is not empty, and is a value after the transformation.
abbrev pub is_among : (String → Option String) → Option String → List (Option String) → Bool
is_among transform none values = false
is_among transform (some x) values = not (x === "") && names transform x values

is_candidate_allowed-among :
    (transform : String → Option String) (candidate : Option String) (values : List (Option String))
    → is_candidate_allowed candidate (normalize_from transform values [])
      ≡ is_among transform candidate values
is_candidate_allowed-among transform none values = refl
is_candidate_allowed-among transform (some x) values =
    ground (arith, includes-normalize_from transform x values [])

-- A role is allowed if no role is required, that is if no configured value is more than white space; if the
-- public role is among the required ones; or if the presented role is, where white space around and the
-- case of letters do not count. Else it is refused.
pub require_allowed_role_lem :
    (required : PolicyValueInput) (presented public_role : Option String)
    → let values = to_iterable required in
      require_allowed_role required presented public_role ≡ (
        if not (names_any normalize_role values)
          || is_among normalize_role (public_role_of public_role) values
          || is_among normalize_role (normalize_role (or_else presented "")) values
        then allowed
        else refused role_forbidden)
unfolding require_allowed_role
require_allowed_role_lem required presented public_role = ground (
  arith,
  is_empty-normalize_from normalize_role (to_iterable required) [],
  is_candidate_allowed-among normalize_role (public_role_of public_role) (to_iterable required),
  is_candidate_allowed-among normalize_role (normalize_role (or_else presented ""))
      (to_iterable required),
)

includes-append_lists :
    (x : String) (xs ys : List String) → includes x (xs ++ ys) ≡ (includes x xs || includes x ys)
includes-append_lists x [] ys = refl
includes-append_lists x (y ∷ xs) ys = ground (arith, includes-append_lists x xs ys)

-- A signature reference is authorized exactly if it is not empty and, white space around aside, is an
-- active reference or one of the overlap.
pub require_authorized_signature_ref_lem :
    (presented : Option String) (active overlap : PolicyValueInput)
    → let candidate = default_normalize (or_else presented "") in
      require_authorized_signature_ref presented active overlap ≡ (
        if is_among default_normalize candidate (to_iterable active)
          || is_among default_normalize candidate (to_iterable overlap)
        then allowed
        else refused signature_ref_forbidden)
unfolding require_authorized_signature_ref
require_authorized_signature_ref_lem presented active overlap =
    let now = normalize_policy_values active default_normalize in
    let also = normalize_policy_values overlap default_normalize in
    elim (Option-cases (default_normalize (or_else presented ""))) [
      | inl e ↦ ground (arith, e)
      | inr (x, e) ↦ ground (
        arith,
        e,
        includes-add_all x (now ++ also) [],
        includes-append_lists x now also,
        includes-normalize_from default_normalize x (to_iterable active) [],
        includes-normalize_from default_normalize x (to_iterable overlap) [],
      )
    ]
