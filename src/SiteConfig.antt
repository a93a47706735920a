-- ===== src/SiteConfig.antt =====
-- workers/async-worker/src/configValidator.ts: the checks of the config that a domain's TXT record points
-- to. A failure is its code and field; the message for people is left out. The verification of
-- signatures, configSignatureVerifier.ts, is in the children Keys and Signature.
pub mod Validator
pub mod Domain
pub mod Fixed
pub mod Formed
pub mod Accepted
pub mod Keys
pub mod Signature
pub mod Genuine
pub mod Unsigned
pub mod ShortKeys
mod Tests
use blackcat_darkmesh_gatewa.Base.{ℕ, ◌≡◌, refl, ap, ◌∙◌, String, Option}

pub data DmConfigErrorCode : Type 0 where
  domain_invalid : DmConfigErrorCode
  config_invalid_type : DmConfigErrorCode
  config_missing_field : DmConfigErrorCode
  config_invalid_field : DmConfigErrorCode
  config_invalid_time_window : DmConfigErrorCode
  config_kid_mismatch : DmConfigErrorCode
  sig_invalid_payload : DmConfigErrorCode
  sig_invalid_public_key : DmConfigErrorCode
  sig_invalid_signature_encoding : DmConfigErrorCode
  sig_unsupported_algorithm : DmConfigErrorCode
  sig_window_not_started : DmConfigErrorCode
  sig_window_expired : DmConfigErrorCode
  sig_verification_failed : DmConfigErrorCode

-- `thrown` is an error of the language that a call ends with.
pub data ConfigResult {ℓ} (A : Type ℓ) : Type ℓ where
  ok : A → ConfigResult A
  fail : DmConfigErrorCode → Option String → ConfigResult A
  thrown : ConfigResult A

infixl 5 ◌>>=◌
abbrev pub ◌>>=◌ {ℓ κ} :
    {A : Type ℓ} {B : Type κ} → ConfigResult A → (A → ConfigResult B) → ConfigResult B
ok a >>= f = f a
fail code field >>= f = fail code field
thrown >>= f = thrown

-- A block that succeeds, for a proof that goes on with what its first step found.
module _ {ℓ κ μ} {A : Type ℓ} {B : Type κ} {C : Type μ} where
  pub found_then :
      (m : ConfigResult A) (f : A → ConfigResult B) (b : B)
      → (m >>= f) ≡ ok b
      → ((a : A) → m ≡ ok a → f a ≡ ok b → C)
      → C
  found_then (ok a) f b h go = go a refl h
  found_then (fail code field) f b h go = cc
  found_then thrown f b h go = cc

-- A step that succeeds, before the rest of a block.
pub found_ok {ℓ κ} :
    {A : Type ℓ} {B : Type κ} (m : ConfigResult A) (a : A) (f : A → ConfigResult B)
    (r : ConfigResult B)
    → m ≡ ok a
    → f a ≡ r
    → (m >>= f) ≡ r
found_ok m a f r e h = ap (λ o. o >>= f) e ∙ h

pub ok_inj {ℓ} : {A : Type ℓ} (x y : A) → ◌≡◌ {A = ConfigResult A} (ok x) (ok y) → x ≡ y
ok_inj x y h = cc

-- `v` is always "dm1".
pub record DmConfigV1 : Type 0 where
  pub domain : String
  pub site_process : String
  pub write_process : String
  pub entry_path : String
  pub valid_from : ℕ
  pub valid_to : ℕ
  pub sig_alg : String
  pub sig : String
  pub owner : String
  pub nonce : String
  pub kid : Option String
