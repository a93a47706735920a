-- ===== src/RouteAssertions/Issue/Bounds.antt =====
-- What an issued assertion says: its lifetime, and the checks that it passed.
use blackcat_darkmesh_gatewa.Auth.{includes}
use blackcat_darkmesh_gatewa.DnsTxt.{is_arweave_id}
use blackcat_darkmesh_gatewa.Json.{Json, whole}
use blackcat_darkmesh_gatewa.Json.Stable.{stable_stringify}
use blackcat_darkmesh_gatewa.RouteAssertions.Outcome.{
  ok, bind_then, require_then, body_field, AssertEnv, Platform,
}
use blackcat_darkmesh_gatewa.RouteAssertions.Domains.{normalize_domain_like}
use blackcat_darkmesh_gatewa.RouteAssertions.Issue.{
  IssuedAssertion, new_assertion, signature_ref_of, signing_key, assertion_json, RouteAssertion,
  read_body, issue, handle_route_assert,
}
use blackcat_darkmesh_gatewa.RouteAssertions.Issue.Bearer.{
  IsBearer, require_route_assert_token-IsBearer,
}
use blackcat_darkmesh_gatewa.RouteAssertions.Inputs.{
  resolve_allowed_hb_hosts, rejected, read_required_string, parse_challenge_exp, route_assert_ttl,
  is_nonce, require_route_assert_token, ttl_of,
}
use blackcat_darkmesh_gatewa.Base.{
  ℕ, ◌+◌, ◌≤◌, ◌<◌, min, ◌≡◌, refl, inl, inr, String, true, Option, List, [], ◌∷◌, ◌===◌, eq_iff,
  Any, Bool-cases, arith, ltb, ltb→lt,
}

-- The values of the request that an issued assertion rests on, with the checks that they passed.
pub record Checked (p : Platform) (env : AssertEnv) (now : ℕ) (header : Option String)
    (issued : IssuedAssertion) : Type 0 where
  pub domain_text : String
  pub domain : String
  pub cfg_tx : String
  pub host_text : String
  pub hb_host : String
  pub nonce : String
  pub challenge_exp : ℕ
  pub authorised : require_route_assert_token env header ≡ ok tt
  pub domain_checked : normalize_domain_like p domain_text "domain" ≡ ok domain
  pub cfg_checked : is_arweave_id cfg_tx ≡ true
  pub host_checked : normalize_domain_like p host_text "hbHost" ≡ ok hb_host
  pub host_listed : includes hb_host (resolve_allowed_hb_hosts p env) ≡ true
  pub nonce_checked : is_nonce nonce ≡ true
  pub challenge_open : now < challenge_exp
  pub living : now < min challenge_exp (now + route_assert_ttl env)
  pub signed :
      issue p env (new_assertion env now domain cfg_tx hb_host nonce challenge_exp) ≡ ok issued

module _ (p : Platform) (env : AssertEnv) (now : ℕ) (header : Option String) (request : Option Json)
    (i : IssuedAssertion) where
  pub handle_route_assert-Checked :
      handle_route_assert p env now header request ≡ ok i → Checked p env now header i
  unfolding handle_route_assert
  handle_route_assert-Checked h =
      bind_then (require_route_assert_token env header) _ i h λ t authorised h.
        bind_then (read_body request) _ i h λ body _ h.
          bind_then (body_field "domain" body) _ i h λ domain_value _ h.
            bind_then (read_required_string domain_value "domain") _ i h λ domain_text _ h.
              bind_then (normalize_domain_like p domain_text "domain") _ i h
                λ domain domain_checked h.
                  bind_then (body_field "cfgTx" body) _ i h λ cfg_value _ h.
                    bind_then (read_required_string cfg_value "cfgTx") _ i h λ cfg_tx _ h.
                      require_then (is_arweave_id cfg_tx) (rejected 400 "invalid_cfgTx") _ i h
                        λ cfg_checked h.
                          bind_then (body_field "hbHost" body) _ i h λ host_value _ h.
                            bind_then (read_required_string host_value "hbHost") _ i h
                              λ host_text _ h.
                                bind_then (normalize_domain_like p host_text "hbHost") _ i h
                                  λ hb_host host_checked h.
                                    require_then (includes hb_host (resolve_allowed_hb_hosts p env))
                                      (rejected 403 "hb_host_not_allowlisted") _ i h
                                      λ host_listed h.
                                        bind_then (body_field "challengeNonce" body) _ i h
                                          λ nonce_value _ h.
                                            bind_then
                                              (read_required_string nonce_value "challengeNonce") _
                                              i h
                                              λ nonce _ h.
                                                require_then (is_nonce nonce)
                                                  (rejected 400 "invalid_challengeNonce") _ i h
                                                  λ nonce_checked h.
                                                    bind_then (body_field "challengeExp" body) _ i h
                                                      λ exp_value _ h.
                                                        bind_then (parse_challenge_exp exp_value) _
                                                          i h
                                                          λ challenge_exp _ h.
                                                            require_then (ltb now challenge_exp)
                                                            (rejected 400 "challenge_expired") _ i h
                                                            λ challenge_open h.
                                                            require_then
                                                            (ltb now (
                                                            min challenge_exp
                                                            (now + route_assert_ttl env)))
                                                            (rejected 400 "invalid_assertion_ttl") _
                                                            i h
                                                            λ lives signed. record {
                                                            domain_text = domain_text;
                                                            domain = domain;
                                                            cfg_tx = cfg_tx;
                                                            host_text = host_text;
                                                            hb_host = hb_host;
                                                            nonce = nonce;
                                                            challenge_exp = challenge_exp;
                                                            authorised = authorised;
                                                            domain_checked = domain_checked;
                                                            cfg_checked = cfg_checked;
                                                            host_checked = host_checked;
                                                            host_listed = host_listed;
                                                            nonce_checked = nonce_checked;
                                                            challenge_open =
                                                            ltb→lt now challenge_exp challenge_open;
                                                            living =
                                                            ltb→lt now
                                                            (min challenge_exp
                                                            (now + route_assert_ttl env))
                                                            lives;
                                                            signed = signed;
                                                            }

-- What `issue` signs: the assertion, with the key of the environment.
pub record Signed (p : Platform) (env : AssertEnv) (a : RouteAssertion) (i : IssuedAssertion)
    : Type 0 where
  pub key : String
  pub keyed : signing_key env ≡ ok key
  pub asserted : i.assertion ≡ a
  pub signature : i.signature ≡ p.sign key (stable_stringify (assertion_json a))
  pub referred : i.signature_ref ≡ signature_ref_of env

pub issue-Signed :
    (p : Platform) (env : AssertEnv) (a : RouteAssertion) (i : IssuedAssertion)
    → issue p env a ≡ ok i
    → Signed p env a i
unfolding issue
issue-Signed p env a i h = bind_then (signing_key env) _ i h λ key keyed h. record {
  key = key;
  keyed = keyed;
  asserted = ground arith;
  signature = ground arith;
  referred = ground arith;
}

ttl_of-le : (n : ℕ) → ttl_of n ≤ 300
ttl_of-le n = ground arith

pub route_assert_ttl-le : (env : AssertEnv) → route_assert_ttl env ≤ 300
unfolding route_assert_ttl
route_assert_ttl-le env = ttl_of-le _

-- The times of an assertion.
pub record Lives (now : ℕ) (a : RouteAssertion) : Type 0 where
  pub until : ℕ
  pub challenge : ℕ
  pub issued_now : a.iat ≡ whole now
  pub expires : a.exp ≡ whole until
  pub challenged : a.challenge_exp ≡ whole challenge
  pub later : now < until
  pub soon : until ≤ now + 300
  pub within : until ≤ challenge

pub new_assertion-Lives :
    (env : AssertEnv) (now : ℕ) (domain cfg_tx hb_host nonce : String) (challenge_exp : ℕ)
    → now < min challenge_exp (now + route_assert_ttl env)
    → Lives now (new_assertion env now domain cfg_tx hb_host nonce challenge_exp)
unfolding new_assertion
new_assertion-Lives env now domain cfg_tx hb_host nonce challenge_exp h = record {
  until = min challenge_exp (now + route_assert_ttl env);
  challenge = challenge_exp;
  issued_now = refl;
  expires = refl;
  challenged = refl;
  later = h;
  soon = omega (arith, route_assert_ttl-le env);
  within = omega arith;
}

includes-Any :
    (host : String) (hosts : List String)
    → includes host hosts ≡ true
    → Any (λ allowed. allowed ≡ host) hosts
includes-Any host [] h = cc
includes-Any host (allowed ∷ hosts) h = elim (Bool-cases (allowed === host)) [
  | inl e ↦ inl ((eq_iff allowed host).0 e)
  | inr e ↦ inr (includes-Any host hosts (ground (arith, e, h)))
]

-- An assertion that is issued is in force: it expires after the moment of its issue, at most 300
-- seconds later and not after its challenge, whatever the environment says. Its gateway host is one
-- of the allowed hosts. The request's header is `Bearer`, in letters of any case, white space and the
-- configured token, which is not empty, white space around the token aside.
pub handle_route_assert_lem :
    (p : Platform) (env : AssertEnv) (now : ℕ) (header : Option String) (request : Option Json)
    (i : IssuedAssertion)
    → handle_route_assert p env now header request ≡ ok i
    → Lives now i.assertion
      × Any (λ allowed. allowed ≡ i.assertion.hb_host) (resolve_allowed_hb_hosts p env)
      × IsBearer env.route_assert_token header
handle_route_assert_lem p env now header request i h =
    let c = handle_route_assert-Checked p env now header request i h in
    let s =
      issue-Signed p env (new_assertion env now c.domain c.cfg_tx c.hb_host c.nonce c.challenge_exp)
        i c.signed in
    rw s.asserted (
      new_assertion-Lives env now c.domain c.cfg_tx c.hb_host c.nonce c.challenge_exp c.living,
      listed c.domain c.cfg_tx c.hb_host c.nonce c.challenge_exp c.host_listed,
      require_route_assert_token-IsBearer env header c.authorised,
    )
  where
    listed :
        (domain cfg_tx hb_host nonce : String) (challenge_exp : ℕ)
        → includes hb_host (resolve_allowed_hb_hosts p env) ≡ true
        → Any
            (λ allowed.
              allowed ≡ (new_assertion env now domain cfg_tx hb_host nonce challenge_exp).hb_host)
            (resolve_allowed_hb_hosts p env)
    listed domain cfg_tx hb_host nonce challenge_exp e =
        unfold new_assertion in includes-Any hb_host (resolve_allowed_hb_hosts p env) e
