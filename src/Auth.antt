-- ===== src/Auth.antt =====
-- src/runtime/auth/policy.ts: whether a role or a signature reference is allowed. An `Iterable` is the
-- list of its values; a value that is no text, and one that is missing, is `none`.
pub mod Allowed
mod Tests
use blackcat_darkmesh_gatewa.Text.{trim, to_lower}
use blackcat_darkmesh_gatewa.Base.{
  ℕ, zero, suc, ◌+◌, ◌-◌, ◌*◌, ◌/◌, ◌%◌, ◌^◌, ◌≤◌, ◌<◌, min, max, ◌≡◌, refl, sym, ap, ◌∙◌, subst,
  ◌≢◌, ◌↔◌, ◌⊎◌, inl, inr, String, Bool, true, false, ◌&&◌, ◌||◌, not, Option, none, some, List, [],
  ◌∷◌, ◌++◌, map, ◌===◌, eq_iff, eq_refl, arith, ltb, leb, ◌==◌, if◌then◌else◌, is_some, or_else,
  option_map, Bool-cases, Option-cases, length, length-append, All, All-append, Any, leb→le, le→leb,
  ltb→lt, lt→ltb,
}

pub data AuthPolicyErrorCode : Type 0 where
  role_forbidden : AuthPolicyErrorCode
  signature_ref_forbidden : AuthPolicyErrorCode

pub data AuthPolicyResult : Type 0 where
  allowed : AuthPolicyResult
  refused : AuthPolicyErrorCode → AuthPolicyResult

pub data PolicyValueInput : Type 0 where
  no_values : PolicyValueInput
  one_value : String → PolicyValueInput
  values_of : List (Option String) → PolicyValueInput

abbrev pub to_iterable : PolicyValueInput → List (Option String)
to_iterable no_values = []
to_iterable (one_value value) = some value ∷ []
to_iterable (values_of values) = values

unfoldable pub default_normalize : String → Option String
default_normalize value = let trimmed = trim value in if trimmed === "" then none else some trimmed

unfoldable pub normalize_role : String → Option String
unfolding default_normalize
normalize_role value = elim (default_normalize value) [
  | none ↦ none
  | some normalized ↦ some (to_lower normalized)
]

abbrev pub includes : String → List String → Bool
includes x [] = false
includes x (y ∷ ys) = y === x || includes x ys

-- `Set.add`: what is there stays where it is.
abbrev pub add : String → List String → List String
add x xs = if includes x xs then xs else xs ++ x ∷ []

-- `if (entry) normalized.add(entry)`: an empty text is not added.
abbrev pub add_entry : Option String → List String → List String
add_entry none set = set
add_entry (some entry) set = if entry === "" then set else add entry set

abbrev pub transformed : (String → Option String) → Option String → Option String
transformed transform none = none
transformed transform (some value) = transform value

unfoldable pub normalize_from :
    (String → Option String) → List (Option String) → List String → List String
normalize_from transform [] set = set
normalize_from transform (value ∷ values) set =
    normalize_from transform values (add_entry (transformed transform value) set)

abbrev pub normalize_policy_values : PolicyValueInput → (String → Option String) → List String
normalize_policy_values values transform = normalize_from transform (to_iterable values) []

-- `!!candidate && allowedValues.includes(candidate)`
abbrev pub is_candidate_allowed : Option String → List String → Bool
is_candidate_allowed none allowed_values = false
is_candidate_allowed (some candidate) allowed_values =
    not (candidate === "") && includes candidate allowed_values

-- `options?.publicRole ? normalizeRole(options.publicRole) : undefined`
abbrev pub public_role_of : Option String → Option String
public_role_of none = none
public_role_of (some role) = if role === "" then none else normalize_role role

abbrev pub is_empty : List String → Bool
is_empty [] = true
is_empty (x ∷ xs) = false

unfoldable pub require_allowed_role :
    PolicyValueInput → Option String → Option String → AuthPolicyResult
require_allowed_role required_roles presented_role public_role =
    let required = normalize_policy_values required_roles normalize_role in
    let role = normalize_role (or_else presented_role "") in
    if is_empty required
    then allowed
    else if is_candidate_allowed (public_role_of public_role) required
    then allowed
    else if is_candidate_allowed role required
    then allowed
    else refused role_forbidden

abbrev pub add_all : List String → List String → List String
add_all [] set = set
add_all (x ∷ xs) set = add_all xs (add x set)

unfoldable pub require_authorized_signature_ref :
    Option String → PolicyValueInput → PolicyValueInput → AuthPolicyResult
require_authorized_signature_ref presented_ref active_refs overlap_refs =
    let refs =
      add_all
        (normalize_policy_values active_refs default_normalize
          ++ normalize_policy_values overlap_refs default_normalize)
        [] in
    if is_candidate_allowed (default_normalize (or_else presented_ref "")) refs
    then allowed
    else refused signature_ref_forbidden
