-- ===== src/SiteConfig/Genuine.antt =====
-- Configs whose signature the worker verified.
use blackcat_darkmesh_gatewa.Json.{Json}
use blackcat_darkmesh_gatewa.SiteConfig.{
  DmConfigErrorCode, ConfigResult, ok, fail, found_then, ok_inj, DmConfigV1,
}
use blackcat_darkmesh_gatewa.SiteConfig.Validator.{is_sig_alg}
use blackcat_darkmesh_gatewa.SiteConfig.Keys.{
  Bytes, Subtle, base64_url_to_bytes, verify_ed25519_signature, verify_rsa_pss_sha256_signature,
  ed25519, rsa_pss,
}
use blackcat_darkmesh_gatewa.SiteConfig.Signature.{
  DmConfigSignatureBlock, VerifyOptions, resolve_public_key, payload_text,
  build_dm1_signature_payload, Verifier, own, supported_signature_verifier, call_verifier,
  supported, now_of, check_window, known_key, known_signature, verdict, verify_dm_config_signature,
  block_of,
}
use blackcat_darkmesh_gatewa.Base.{
  ℕ, ◌≤◌, ◌≡◌, refl, sym, ap, ◌∙◌, ◌⊎◌, inl, inr, String, Bool, true, false, ◌||◌, Option, none,
  some, ◌===◌, eq_iff, arith, ltb, if◌then◌else◌,
}

-- What an accepted block went through.
pub record IsVerified (p : Subtle) (config : DmConfigSignatureBlock) (options : VerifyOptions)
    : Type 0 where
  pub verifier : Verifier
  pub key : Bytes
  pub signature : Bytes
  pub known : supported_signature_verifier config.sig_alg ≡ some verifier
  pub started : config.valid_from ≤ now_of options
  pub unexpired : now_of options ≤ config.valid_to
  pub key_known : resolve_public_key p config options ≡ some key
  pub signature_known : base64_url_to_bytes p config.sig ≡ some signature
  pub verified : call_verifier p verifier (payload_text config) signature key ≡ ok true

supported-ok : (o : Option Verifier) (v : Verifier) → supported o ≡ ok v → o ≡ some v
supported-ok none v h = cc
supported-ok (some w) v h = ap (λ x. some x) (ok_inj w v h)

known_key-ok : (o : Option Bytes) (b : Bytes) → known_key o ≡ ok b → o ≡ some b
known_key-ok none b h = cc
known_key-ok (some a) b h = ap (λ x. some x) (ok_inj a b h)

known_signature-ok : (o : Option Bytes) (b : Bytes) → known_signature o ≡ ok b → o ≡ some b
known_signature-ok none b h = cc
known_signature-ok (some a) b h = ap (λ x. some x) (ok_inj a b h)

verdict-ok : (s t : String) (b : Bool) → verdict s b ≡ ok t → (b ≡ true) × (s ≡ t)
verdict-ok s t true h = (refl, ok_inj s t h)
verdict-ok s t false h = cc

if_ok :
    {A : Type 0} (test : Bool) (code : DmConfigErrorCode) (name : Option String)
    (r : ConfigResult A) (a : A)
    → (if test then fail code name else r) ≡ ok a
    → (test ≡ false) × (r ≡ ok a)
if_ok true code name r a h = cc
if_ok false code name r a h = (refl, h)

check_window-ok :
    (now start stop : ℕ) (u : Unit {0})
    → check_window now start stop ≡ ok u
    → (start ≤ now) × (now ≤ stop)
unfolding check_window
check_window-ok now start stop u h =
    let (early, h) = if_ok (ltb now start) _ _ _ u h in
    let (late, h) = if_ok (ltb stop now) _ _ _ u h in (ground arith, ground arith)

build-ok :
    (config : DmConfigSignatureBlock) (s : String)
    → build_dm1_signature_payload config ≡ ok s
    → payload_text config ≡ s
unfolding build_dm1_signature_payload
build-ok config s h =
    ok_inj (payload_text config) s
      (if_ok ((config.domain === "") || (config.owner === "") || (config.nonce === "")) _ _ _ s h).1

pub verify_dm_config_signature-IsVerified :
    (p : Subtle) (config : DmConfigSignatureBlock) (options : VerifyOptions) (payload : String)
    → verify_dm_config_signature p config options ≡ ok payload
    → (payload_text config ≡ payload) × IsVerified p config options
unfolding verify_dm_config_signature
verify_dm_config_signature-IsVerified p config options payload h =
    found_then (supported (supported_signature_verifier config.sig_alg)) _ payload h λ v known h.
      found_then (check_window (now_of options) config.valid_from config.valid_to) _ payload h
        λ u window h. found_then (build_dm1_signature_payload config) _ payload h λ s built h.
          found_then (known_key (resolve_public_key p config options)) _ payload h λ k key h.
            found_then (known_signature (base64_url_to_bytes p config.sig)) _ payload h
              λ g signature h. found_then (call_verifier p v s g k) _ payload h λ b called h.
                let (passed, same) = verdict-ok s payload b h in
                let text = build-ok config s built in
                let (started, unexpired) =
                  check_window-ok (now_of options) config.valid_from config.valid_to u window in
                (
                  text ∙ same,
                  record {
                    verifier = v;
                    key = k;
                    signature = g;
                    known = supported-ok (supported_signature_verifier config.sig_alg) v known;
                    started = started;
                    unexpired = unexpired;
                    key_known = known_key-ok (resolve_public_key p config options) k key;
                    signature_known =
                        known_signature-ok (base64_url_to_bytes p config.sig) g signature;
                    verified =
                        ap (λ t. call_verifier p v t g k) text
                        ∙ (called ∙ ap (λ (x : Bool). ok x) passed);
                  },
                )

-- A signature of the algorithm that the config names.
abbrev pub IsSigned : Subtle → String → String → Bytes → Bytes → Type 0
IsSigned p sig_alg payload signature key =
    ((sig_alg ≡ "ed25519") × (verify_ed25519_signature p payload signature key ≡ true))
    ⊎ ((sig_alg ≡ "rsa-pss-sha256")
        × (verify_rsa_pss_sha256_signature p payload signature key ≡ true))

-- A config inside its time window with a signature over its payload that the key verifies.
pub record Genuine (p : Subtle) (c : DmConfigV1) (options : VerifyOptions) : Type 0 where
  pub key : Bytes
  pub signature : Bytes
  pub started : c.valid_from ≤ now_of options
  pub unexpired : now_of options ≤ c.valid_to
  pub key_known : resolve_public_key p (block_of c) options ≡ some key
  pub signature_known : base64_url_to_bytes p c.sig ≡ some signature
  pub signed : IsSigned p c.sig_alg (payload_text (block_of c)) signature key

or_cases : (a b : Bool) → (a || b) ≡ true → (a ≡ true) ⊎ (b ≡ true)
or_cases true b h = inl refl
or_cases false b h = inr h

-- The validator lets two algorithms pass, and each has its own verifier.
signed :
    (p : Subtle) (sig_alg payload : String) (signature key : Bytes) (v : Verifier)
    → is_sig_alg sig_alg ≡ true
    → supported_signature_verifier sig_alg ≡ some v
    → call_verifier p v payload signature key ≡ ok true
    → IsSigned p sig_alg payload signature key
unfolding supported_signature_verifier call_verifier
signed p sig_alg payload signature key v allowed known called =
    elim (or_cases (sig_alg === "ed25519") (sig_alg === "rsa-pss-sha256") allowed) [
      | inl e ↦
          let name = (eq_iff sig_alg "ed25519").0 e in
          inl (
            name,
            ok_inj _ true
                (same_verifier (own ed25519) (ap supported_signature_verifier (sym name) ∙ known)),
          )
      | inr e ↦
          let name = (eq_iff sig_alg "rsa-pss-sha256").0 e in
          inr (
            name,
            ok_inj _ true
                (same_verifier (own rsa_pss) (ap supported_signature_verifier (sym name) ∙ known)),
          )
    ]
  where
    same_verifier :
        (w : Verifier)
        → ◌≡◌ {A = Option Verifier} (some w) (some v)
        → call_verifier p w payload signature key ≡ ok true
    same_verifier w e = let same : w ≡ v = cc in rw same called
