-- ===== src/RouteAssertions/Issue/Bearer.antt =====
-- The bearer token of requireRouteAssertToken, workers/secrets-worker/src/routeAssertion.ts.
use Prim.Native.Char.{Char, code}
use blackcat_darkmesh_gatewa.Text.{trim, is_space, strip_prefix_ignore_case}
use blackcat_darkmesh_gatewa.RouteAssertions.Outcome.{ok, clean_env, AssertEnv}
use blackcat_darkmesh_gatewa.RouteAssertions.Inputs.{
  behind_space, read_bearer_token, require_route_assert_token,
}
use blackcat_darkmesh_gatewa.Base.{
  ◌≡◌, refl, sym, ◌∙◌, ◌≢◌, inl, inr, String, true, false, Option, none, some, ◌===◌, eq_iff, arith,
  Bool-cases,
}

-- The header is `Bearer`, in letters of any case, a space and the configured token, with white space
-- around the token set aside; the token is not empty.
pub record IsBearer (setting header : Option String) : Type 0 where
  pub configured : String
  pub given : String
  pub space : Char
  pub rest : String
  pub is_set : setting ≡ some configured
  pub is_given : header ≡ some given
  pub prefixed : strip_prefix_ignore_case "bearer" given ≡ some (String.◌∷◌ space rest)
  pub spaced : is_space (code space) ≡ true
  pub matches : trim rest ≡ trim configured
  pub filled : trim configured ≢ ""

-- What a token that is not empty was read from.
record Bearing (header : Option String) (token : String) : Type 0 where
  given : String
  space : Char
  rest : String
  is_given : header ≡ some given
  prefixed : strip_prefix_ignore_case "bearer" given ≡ some (String.◌∷◌ space rest)
  spaced : is_space (code space) ≡ true
  read : trim rest ≡ token

behind_space-some :
    (o : Option String) (token : String)
    → behind_space o ≡ token
    → token ≢ ""
    → (c : Char) × (s : String) × (o ≡ some (String.◌∷◌ c s))
      × (is_space (code c) ≡ true)
      × (trim s ≡ token)
behind_space-some none token h filled = absurd (filled (sym h))
behind_space-some (some String.[]) token h filled = absurd (filled (sym h))
behind_space-some (some (String.◌∷◌ c s)) token h filled = elim (Bool-cases (is_space (code c))) [
  | inl e ↦ (c, s, refl, e, sym (rw e refl) ∙ h)
  | inr e ↦ absurd (filled (sym h ∙ (rw e refl)))
]

read_bearer_token-Bearing :
    (header : Option String) (token : String)
    → read_bearer_token header ≡ token
    → token ≢ ""
    → Bearing header token
unfolding read_bearer_token
read_bearer_token-Bearing none token h filled = absurd (filled (sym h))
read_bearer_token-Bearing (some given) token h filled =
    let (c, s, stripped, spaced, read) =
      behind_space-some (strip_prefix_ignore_case "bearer" given) token h filled in
    record {
      given = given;
      space = c;
      rest = s;
      is_given = refl;
      prefixed = stripped;
      spaced = spaced;
      read = read;
    }

clean_env-set :
    (setting : Option String)
    → clean_env setting ≢ ""
    → (s : String) × (setting ≡ some s) × (trim s ≡ clean_env setting)
unfolding clean_env
clean_env-set none filled = absurd (filled refl)
clean_env-set (some s) filled = (s, refl, refl)

refuted : false ≡ true → ⊥
refuted e = cc

not_empty : (s : String) → (s === "") ≡ false → s ≢ ""
not_empty s h e = refuted (sym h ∙ (eq_iff s "").1 e)

pub require_route_assert_token-IsBearer :
    (env : AssertEnv) (header : Option String)
    → require_route_assert_token env header ≡ ok tt
    → IsBearer env.route_assert_token header
unfolding require_route_assert_token
require_route_assert_token-IsBearer env header h =
    let expected = clean_env env.route_assert_token in
    let actual = read_bearer_token header in
    elim (Bool-cases (expected === "")) [
      | inl e ↦ ground (arith, e, h)
      | inr e ↦ elim (Bool-cases (actual === expected)) [
        | inr f ↦ ground (arith, e, f, h)
        | inl f ↦
            let same : actual ≡ expected = (eq_iff actual expected).0 f in
            let filled = not_empty expected e in
            let (setting, is_set, trimmed) = clean_env-set env.route_assert_token filled in
            let b = read_bearer_token-Bearing header expected same filled in
            record {
              configured = setting;
              given = b.given;
              space = b.space;
              rest = b.rest;
              is_set = is_set;
              is_given = b.is_given;
              prefixed = b.prefixed;
              spaced = b.spaced;
              matches = b.read ∙ sym trimmed;
              filled = λ e. filled (sym trimmed ∙ e);
            }
      ]
    ]
