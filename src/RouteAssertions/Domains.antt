-- ===== src/RouteAssertions/Domains.antt =====
-- normalizeDomainLike of workers/secrets-worker/src/routeAssertion.ts and routeAssertionVerify.ts: the
-- same checks, which differ in the code of an empty name.
pub mod Hosts
pub mod Fixed
mod Tests
use Prim.Native.String.{◌++◌ as ◌+++◌}
use blackcat_darkmesh_gatewa.Text.{
  trim, to_lower, split, is_digit, all_chars, includes_text, starts_with, ends_with, drop_trailing,
  chars,
}
use blackcat_darkmesh_gatewa.RouteAssertions.Outcome.{Failure, refused, Outcome, ok, err, Platform}
use blackcat_darkmesh_gatewa.Base.{
  ℕ, zero, suc, ◌+◌, ◌-◌, ◌*◌, ◌/◌, ◌%◌, ◌^◌, ◌≤◌, ◌<◌, min, max, ◌≡◌, refl, sym, ap, ◌∙◌, subst,
  ◌≢◌, ◌↔◌, ◌⊎◌, inl, inr, String, Bool, true, false, ◌&&◌, ◌||◌, not, Option, none, some, List, [],
  ◌∷◌, ◌++◌, map, ◌===◌, eq_iff, eq_refl, arith, ltb, leb, ◌==◌, if◌then◌else◌, is_some, or_else,
  option_map, Bool-cases, Option-cases, length, length-append, All, All-append, Any, leb→le, le→leb,
  ltb→lt, lt→ltb,
}

pub data DomainResult : Type 0 where
  missing : DomainResult
  invalid : DomainResult
  host : String → DomainResult

-- `[a-z0-9-]`
abbrev pub is_label_char : ℕ → Bool
is_label_char c = (leb b'a' c && leb c b'z') || is_digit c || c == b'-'

unfoldable pub is_label : String → Bool
unfolding chars all_chars starts_with ends_with
is_label label =
    not (label === "")
    && leb (chars label) 63
    && all_chars is_label_char label
    && not (starts_with "-" label)
    && not (ends_with b'-' label)

unfoldable pub all_labels : List String → Bool
unfolding is_label
all_labels [] = true
all_labels (label ∷ labels) = is_label label && all_labels labels

unfoldable pub checked_host : String → DomainResult
unfolding all_labels split includes_text
checked_host parsed_host =
    if not (includes_text "." parsed_host)
    then invalid
    else if all_labels (split b'.' parsed_host)
    then host parsed_host
    else invalid

abbrev pub parsed_host : Option String → DomainResult
parsed_host none = invalid
parsed_host (some name) = checked_host (to_lower name)

-- The part that follows the test for `://`, on the name without trailing dots.
unfoldable pub check_name : Platform → String → DomainResult
unfolding checked_host chars includes_text to_lower
check_name p normalized =
    if (normalized === "") || ltb 253 (chars normalized) || includes_text "/" normalized
    then invalid
    else parsed_host (p.hostname ("http://" +++ normalized))

unfoldable pub check_domain_like : Platform → String → DomainResult
unfolding check_name trim to_lower includes_text drop_trailing
check_domain_like p value =
    let normalized = to_lower (trim value) in
    if normalized === ""
    then missing
    else if includes_text "://" normalized
    then invalid
    else check_name p (drop_trailing b'.' normalized)

abbrev pub or_refuse : String → DomainResult → Outcome String
or_refuse field missing = err (refused none 400 ("missing_" +++ field))
or_refuse field invalid = err (refused none 400 ("invalid_" +++ field))
or_refuse field (host name) = ok name

-- The one of routeAssertion.ts.
unfoldable pub normalize_domain_like : Platform → String → String → Outcome String
unfolding check_domain_like
normalize_domain_like p value field = or_refuse field (check_domain_like p value)

abbrev pub or_fail : String → DomainResult → Outcome String
or_fail field (host name) = ok name
or_fail field other =
    err (refused (some "worker_route_assert_verify_fail_total") 400 ("invalid_" +++ field))

-- The one of routeAssertionVerify.ts, whose error becomes the answer.
unfoldable pub normalize_verify_domain : Platform → String → String → Outcome String
unfolding check_domain_like
normalize_verify_domain p value field = or_fail field (check_domain_like p value)
