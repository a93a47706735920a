-- ===== src/RouteAssertions/Outcome.antt =====
-- What the handlers of route assertions throw and read: failures, fields of the request's JSON, settings
-- of the environment, and the platform's URL parser, signatures and hash.
use blackcat_darkmesh_gatewa.Text.{trim}
use blackcat_darkmesh_gatewa.Json.{Json, null, undefined, obj, non_plain, Fields, end, field}
use blackcat_darkmesh_gatewa.Base.{
  ℕ, ◌≡◌, refl, ap, ◌∙◌, String, Bool, true, false, Option, none, some, ◌===◌, if◌then◌else◌,
}

-- A refusal with the counter that it adds to, its status and its code; or an error of the language,
-- as for a field of `null`.
pub data Failure : Type 0 where
  refused : Option String → ℕ → String → Failure
  type_error : Failure

pub data Outcome {ℓ} (A : Type ℓ) : Type ℓ where
  ok : A → Outcome A
  err : Failure → Outcome A

infixl 5 ◌>>=◌ ◌>>◌
abbrev pub ◌>>=◌ {ℓ κ} : {A : Type ℓ} {B : Type κ} → Outcome A → (A → Outcome B) → Outcome B
ok a >>= f = f a
err e >>= f = err e

abbrev pub ◌>>◌ {ℓ} : {B : Type ℓ} → Outcome (Unit {0}) → Outcome B → Outcome B
m >> k = m >>= λ _. k

abbrev pub require : Bool → Failure → Outcome (Unit {0})
require true e = ok tt
require false e = err e

pub >>=-ok {ℓ κ} :
    {A : Type ℓ} {B : Type κ} (m : Outcome A) (f : A → Outcome B) (b : B)
    → (m >>= f) ≡ ok b
    → (a : A) × (m ≡ ok a) × (f a ≡ ok b)
>>=-ok (ok a) f b h = (a, refl, h)
>>=-ok (err e) f b h = cc

pub require-ok {κ} :
    {B : Type κ} (t : Bool) (e : Failure) (k : Outcome B) (b : B)
    → (require t e >> k) ≡ ok b
    → (t ≡ true) × (k ≡ ok b)
require-ok true e k b h = (refl, h)
require-ok false e k b h = cc

-- The same, for a proof that goes on with what it finds.
module _ {ℓ κ μ} {A : Type ℓ} {B : Type κ} {C : Type μ} where
  pub bind_then :
      (m : Outcome A) (f : A → Outcome B) (b : B)
      → (m >>= f) ≡ ok b
      → ((a : A) → m ≡ ok a → f a ≡ ok b → C)
      → C
  bind_then m f b h go = let (a, found, rest) = >>=-ok m f b h in go a found rest

pub require_then {κ μ} :
    {B : Type κ} {C : Type μ} (t : Bool) (e : Failure) (k : Outcome B) (b : B)
    → (require t e >> k) ≡ ok b
    → (t ≡ true → k ≡ ok b → C)
    → C
require_then t e k b h go = go (require-ok t e k b h).0 (require-ok t e k b h).1

pub ok_inj : {A : Type 0} (x y : A) → ◌≡◌ {A = Outcome A} (ok x) (ok y) → x ≡ y
ok_inj x y h = cc

-- A step that succeeds, before the rest of a block.
pub bind_ok {ℓ κ} :
    {A : Type ℓ} {B : Type κ} (m : Outcome A) (a : A) (f : A → Outcome B) (r : Outcome B)
    → m ≡ ok a
    → f a ≡ r
    → (m >>= f) ≡ r
bind_ok m a f r e h = ap (λ o. o >>= f) e ∙ h

pub require_ok {κ} :
    {B : Type κ} (t : Bool) (e : Failure) (k r : Outcome B)
    → t ≡ true
    → k ≡ r
    → (require t e >> k) ≡ r
require_ok t e k r h g = ap (λ b. require b e >> k) h ∙ g

-- `value[key]` of an object that has the key once.
unfoldable pub field_of : String → Fields → Json
field_of key end = undefined
field_of key (field k x fields) = if k === key then x else field_of key fields

-- `body[key]`: nothing but an object has such keys.
unfoldable pub body_field : String → Json → Outcome Json
unfolding field_of
body_field key null = err type_error
body_field key undefined = err type_error
body_field key (obj fields) = ok (field_of key fields)
body_field key (non_plain fields) = ok (field_of key fields)
body_field key other = ok undefined

-- `typeof value === 'string' ? value.trim() : ''`
unfoldable pub clean_env : Option String → String
unfolding trim
clean_env none = ""
clean_env (some value) = trim value

-- `a || b` of settings: an empty text counts as none.
abbrev pub or_setting : Option String → Option String → Option String
or_setting none other = other
or_setting (some value) other = if value === "" then other else some value

pub record AssertEnv : Type 0 where
  pub route_assert_token : Option String
  pub hb_allowed_hosts : Option String
  pub ao_hb_url : Option String
  pub route_assert_ttl_sec : Option String
  pub route_assert_site_process : Option String
  pub ao_site_process_id : Option String
  pub route_assert_write_process : Option String
  pub write_process_id : Option String
  pub route_assert_entry_path : Option String
  pub route_assert_signing_key_hex : Option String
  pub worker_ed25519_priv_hex : Option String
  pub route_assert_signature_ref : Option String
  pub worker_signature_ref : Option String
  pub route_assert_verify_pub_hex : Option String
  pub route_assert_verify_skew_sec : Option String

-- `new URL(text).hostname`, Ed25519 and SHA-256. Keys, signatures and digests are the text of their
-- hexadecimal digits.
pub record Platform : Type 0 where
  pub hostname : String → Option String
  pub public_key : String → String
  pub sign : String → String → String
  pub verify : String → String → String → Bool
  pub digest : String → String
