-- ===== src/RouteAssertions/Journey/Parsing.antt =====
-- The verifier's parser on the JSON of an assertion whose values are already clean.
use blackcat_darkmesh_gatewa.Text.{trim}
use blackcat_darkmesh_gatewa.Json.{Json, undefined, num, text, Fields, end, Number, whole}
use blackcat_darkmesh_gatewa.RouteAssertions.Outcome.{ok, field_of, body_field, Platform}
use blackcat_darkmesh_gatewa.RouteAssertions.Domains.{normalize_verify_domain}
use blackcat_darkmesh_gatewa.RouteAssertions.Issue.{
  RouteAssertion, IssuedAssertion, assertion_fields, assertion_json, response_json, optional_field,
}
use blackcat_darkmesh_gatewa.RouteAssertions.VerifyInput.{
  text_or_empty, require_string, require_number, filled_text, parse_fields, parse_verify_input,
}
use blackcat_darkmesh_gatewa.Base.{
  ℕ, ◌≡◌, refl, ◌∙◌, String, true, false, Option, none, some, ◌===◌,
}

-- A text that trimming leaves alone, and that is not empty.
pub record IsClean (s : String) : Type 0 where
  pub trimmed : trim s ≡ s
  pub filled : (s === "") ≡ false

abbrev pub IsFilled : Option String → Type 0
IsFilled none = Unit {0}
IsFilled (some s) = (s === "") ≡ false

-- What the parser needs of an assertion.
pub record IsSendable (p : Platform) (a : RouteAssertion) : Type 0 where
  pub v_clean : IsClean a.v
  pub nonce_clean : IsClean a.challenge_nonce
  pub cfg_clean : IsClean a.cfg_tx
  pub domain_clean : IsClean a.domain
  pub host_clean : IsClean a.hb_host
  pub domain_kept : (name : String) → normalize_verify_domain p a.domain name ≡ ok a.domain
  pub host_kept : (name : String) → normalize_verify_domain p a.hb_host name ≡ ok a.hb_host
  pub issued : ℕ
  pub until : ℕ
  pub challenge : ℕ
  pub iat_whole : a.iat ≡ whole issued
  pub exp_whole : a.exp ≡ whole until
  pub challenge_whole : a.challenge_exp ≡ whole challenge
  pub site_filled : IsFilled a.site_process
  pub write_filled : IsFilled a.write_process
  pub entry_filled : IsFilled a.entry_path

require_string_clean :
    (key s : String) (fields : Fields)
    → field_of key fields ≡ text s
    → IsClean s
    → require_string key fields ≡ ok s
unfolding require_string text_or_empty
require_string_clean key s fields e c = rw (e, c.trimmed, c.filled) refl

require_number_whole :
    (key : String) (x : Number) (n : ℕ) (fields : Fields)
    → field_of key fields ≡ num x
    → x ≡ whole n
    → require_number key fields ≡ ok x
unfolding require_number
require_number_whole key x n fields e w = rw (e, w) refl

optional_json : Option String → Json
optional_json none = undefined
optional_json (some s) = text s

filled_text-optional : (o : Option String) → IsFilled o → filled_text (optional_json o) ≡ o
unfolding optional_json
filled_text-optional none f = refl
filled_text-optional (some s) f = rw f refl

module _ (key k : String) (o : Option String) (fields : Fields) where
  field_of_other :
      (k === key) ≡ false → field_of key (optional_field k o fields) ≡ field_of key fields
  unfolding field_of
  field_of_other other = by_cases o
    where
      by_cases :
          (o : Option String) → field_of key (optional_field k o fields) ≡ field_of key fields
      by_cases none = refl
      by_cases (some s) = rw other refl

  field_of_self :
      (k === key) ≡ true
      → field_of key fields ≡ undefined
      → field_of key (optional_field k o fields) ≡ optional_json o
  unfolding field_of optional_json
  field_of_self self absent = by_cases o
    where
      by_cases : (o : Option String) → field_of key (optional_field k o fields) ≡ optional_json o
      by_cases none = absent
      by_cases (some s) = rw self refl

field_of-end : (key : String) → field_of key end ≡ undefined
unfolding field_of
field_of-end key = refl

module _ (a : RouteAssertion) where
  field_of-entry : field_of "entryPath" (assertion_fields a) ≡ optional_json a.entry_path
  unfolding assertion_fields field_of
  field_of-entry =
      field_of_other "entryPath" "siteProcess" a.site_process _ refl
      ∙ (field_of_other "entryPath" "writeProcess" a.write_process _ refl
          ∙ field_of_self "entryPath" "entryPath" a.entry_path end refl refl)

  field_of-write : field_of "writeProcess" (assertion_fields a) ≡ optional_json a.write_process
  unfolding assertion_fields field_of
  field_of-write =
      field_of_other "writeProcess" "siteProcess" a.site_process _ refl
      ∙ field_of_self "writeProcess" "writeProcess" a.write_process _ refl
          (field_of_other "writeProcess" "entryPath" a.entry_path end refl)

  field_of-site : field_of "siteProcess" (assertion_fields a) ≡ optional_json a.site_process
  unfolding assertion_fields field_of
  field_of-site = field_of_self "siteProcess" "siteProcess" a.site_process _ refl (
      field_of_other "siteProcess" "writeProcess" a.write_process _ refl
      ∙ field_of_other "siteProcess" "entryPath" a.entry_path end refl)

  -- The fields that every assertion has.
  field_of-required :
      (field_of "v" (assertion_fields a) ≡ text a.v)
      × (field_of "iat" (assertion_fields a) ≡ num a.iat)
      × (field_of "exp" (assertion_fields a) ≡ num a.exp)
      × (field_of "challengeNonce" (assertion_fields a) ≡ text a.challenge_nonce)
      × (field_of "challengeExp" (assertion_fields a) ≡ num a.challenge_exp)
      × (field_of "domain" (assertion_fields a) ≡ text a.domain)
      × (field_of "cfgTx" (assertion_fields a) ≡ text a.cfg_tx)
      × (field_of "hbHost" (assertion_fields a) ≡ text a.hb_host)
  unfolding assertion_fields field_of
  field_of-required = (refl, refl, refl, refl, refl, refl, refl, refl)

  parse_fields-assertion_fields :
      (p : Platform) → IsSendable p a → parse_fields p (assertion_fields a) ≡ ok a
  unfolding parse_fields
  parse_fields-assertion_fields p c =
      let (v, iat, exp, nonce, challenge, domain, cfg, host) = field_of-required in
      let fields = assertion_fields a in
      rw
        (
          require_string_clean "v" a.v fields v c.v_clean,
          require_number_whole "iat" a.iat c.issued fields iat c.iat_whole,
          require_number_whole "exp" a.exp c.until fields exp c.exp_whole,
          require_string_clean "challengeNonce" a.challenge_nonce fields nonce c.nonce_clean,
          require_number_whole "challengeExp" a.challenge_exp c.challenge fields challenge
              c.challenge_whole,
          require_string_clean "domain" a.domain fields domain c.domain_clean,
          c.domain_kept "domain",
          require_string_clean "cfgTx" a.cfg_tx fields cfg c.cfg_clean,
          require_string_clean "hbHost" a.hb_host fields host c.host_clean,
          c.host_kept "hbHost",
          field_of-site,
          field_of-write,
          field_of-entry,
          filled_text-optional a.site_process c.site_filled,
          filled_text-optional a.write_process c.write_filled,
          filled_text-optional a.entry_path c.entry_filled,
        )
        refl

-- The parser returns the assertion that a response carries.
pub parse_verify_input-response_json :
    (p : Platform) (i : IssuedAssertion)
    → IsSendable p i.assertion
    → parse_verify_input p (response_json i) ≡ ok i.assertion
unfolding parse_verify_input response_json body_field assertion_json
parse_verify_input-response_json p i c = parse_fields-assertion_fields i.assertion p c
