-- ===== src/RouteAssertions/Inputs.antt =====
-- workers/secrets-worker/src/routeAssertion.ts: what the issuer reads of the settings and of the request.
use Prim.Native.Char.{code}
use Prim.Native.String.{◌++◌ as ◌+++◌}
use blackcat_darkmesh_gatewa.Auth.{add}
use blackcat_darkmesh_gatewa.Text.{
  trim, to_lower, split, is_digit, is_space, all_chars, strip_prefix_ignore_case, chars,
  parse_positive,
}
use blackcat_darkmesh_gatewa.Json.{Json, num, text, whole}
use blackcat_darkmesh_gatewa.RouteAssertions.Outcome.{
  Failure, refused, Outcome, ok, err, clean_env, AssertEnv, Platform,
}
use blackcat_darkmesh_gatewa.Base.{
  ℕ, zero, suc, min, max, String, Bool, ◌&&◌, ◌||◌, not, Option, none, some, List, [], ◌∷◌, ◌===◌,
  leb, ◌==◌, if◌then◌else◌, or_else,
}

abbrev pub add_host : String → List String → List String
add_host item hosts = if item === "" then hosts else add item hosts

unfoldable pub hosts_of : List String → List String → List String
unfolding trim to_lower
hosts_of [] hosts = hosts
hosts_of (item ∷ items) hosts = hosts_of items (add_host (to_lower (trim item)) hosts)

unfoldable pub parse_allowlist_csv : Option String → List String
unfolding hosts_of split
parse_allowlist_csv none = []
parse_allowlist_csv (some value) = if value === "" then [] else hosts_of (split b',' value) []

abbrev pub default_hosts : List String
default_hosts = "hyperbeam.darkmesh.fun" ∷ []

abbrev pub host_or_default : Option String → List String
host_or_default none = default_hosts
host_or_default (some name) = if to_lower name === "" then default_hosts else to_lower name ∷ []

-- Without an explicit list, the host of the configured URL, or the default.
abbrev pub fallback_hosts : Platform → String → List String
fallback_hosts p hb_url =
    if hb_url === "" then default_hosts else host_or_default (p.hostname hb_url)

abbrev pub explicit_or : List String → List String → List String
explicit_or [] fallback = fallback
explicit_or (first ∷ hosts) fallback = first ∷ hosts

unfoldable pub resolve_allowed_hb_hosts : Platform → AssertEnv → List String
unfolding parse_allowlist_csv clean_env to_lower
resolve_allowed_hb_hosts p env =
    explicit_or (parse_allowlist_csv env.hb_allowed_hosts)
      (fallback_hosts p (clean_env env.ao_hb_url))

abbrev pub rejected : ℕ → String → Failure
rejected status code = refused (some "worker_route_assert_reject_total") status code

unfoldable pub read_required_string : Json → String → Outcome String
unfolding trim
read_required_string (text value) name =
    if trim value === "" then err (refused none 400 ("missing_" +++ name)) else ok (trim value)
read_required_string other name = err (refused none 400 ("missing_" +++ name))

abbrev pub positive_or_invalid : Option ℕ → Outcome ℕ
positive_or_invalid none = err (refused none 400 "invalid_challengeExp")
positive_or_invalid (some zero) = err (refused none 400 "invalid_challengeExp")
positive_or_invalid (some (suc n)) = ok (suc n)

unfoldable pub parse_challenge_exp : Json → Outcome ℕ
unfolding trim parse_positive
parse_challenge_exp (num (whole n)) = positive_or_invalid (some n)
parse_challenge_exp (num other) = positive_or_invalid none
parse_challenge_exp (text value) = positive_or_invalid (parse_positive (trim value))
parse_challenge_exp other = err (refused none 400 "missing_challengeExp")

abbrev pub ttl_of : ℕ → ℕ
ttl_of configured = if configured == 0 then 120 else min 300 (max 10 configured)

-- A text that is empty, no number or not positive leaves the default.
unfoldable pub route_assert_ttl : AssertEnv → ℕ
unfolding clean_env parse_positive
route_assert_ttl env = ttl_of (or_else (parse_positive (clean_env env.route_assert_ttl_sec)) 0)

-- `[A-Fa-f0-9]`
abbrev pub is_hex : ℕ → Bool
is_hex c = (leb b'a' c && leb c b'f') || (leb b'A' c && leb c b'F') || is_digit c

unfoldable pub is_hex_text : ℕ → String → Bool
unfolding all_chars chars
is_hex_text n s = chars s == n && all_chars is_hex s

-- `[A-Za-z0-9._:-]`
abbrev pub is_nonce_char : ℕ → Bool
is_nonce_char c =
    (leb b'A' c && leb c b'Z')
    || (leb b'a' c && leb c b'z')
    || is_digit c
    || c == b'.'
    || c == b'_'
    || c == b':'
    || c == b'-'

unfoldable pub is_nonce : String → Bool
unfolding all_chars chars
is_nonce s = all_chars is_nonce_char s && leb 8 (chars s) && leb (chars s) 256

-- `/^Bearer\s+/i` takes one white space at least; `trim` takes the others.
abbrev pub behind_space : Option String → String
behind_space none = ""
behind_space (some String.[]) = ""
behind_space (some (String.◌∷◌ c s)) = if is_space (code c) then trim s else ""

unfoldable pub read_bearer_token : Option String → String
unfolding strip_prefix_ignore_case trim
read_bearer_token none = ""
read_bearer_token (some header) = behind_space (strip_prefix_ignore_case "bearer" header)

unfoldable pub require_route_assert_token : AssertEnv → Option String → Outcome (Unit {0})
unfolding clean_env read_bearer_token
require_route_assert_token env header =
    let expected = clean_env env.route_assert_token in
    let actual = read_bearer_token header in
    if expected === ""
    then err (refused (some "worker_route_assert_fail_total") 500 "missing_route_assert_token")
    else if (actual === "") || not (actual === expected)
    then err (refused (some "worker_route_assert_auth_failed_total") 401 "unauthorized")
    else ok tt

unfoldable pub optional_value : Option String → Option String
unfolding clean_env
optional_value value = if clean_env value === "" then none else some (clean_env value)
