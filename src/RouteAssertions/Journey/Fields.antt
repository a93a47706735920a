-- ===== src/RouteAssertions/Journey/Fields.antt =====
-- What the issuer puts into an assertion is clean, and stays as it is in the verifier's parser.
use blackcat_darkmesh_gatewa.Text.{trim, is_space, has_space, all_chars, chars}
use blackcat_darkmesh_gatewa.Text.Spaces.{trim_id, trim-trim, all_chars-spaceless}
use blackcat_darkmesh_gatewa.DnsTxt.{is_arweave_id, is_id_char}
use blackcat_darkmesh_gatewa.RouteAssertions.Outcome.{
  Failure, refused, ok_inj, Outcome, ok, err, clean_env, or_setting, AssertEnv, Platform,
}
use blackcat_darkmesh_gatewa.RouteAssertions.Domains.Hosts.{all_labels-chars, host_chars-space}
use blackcat_darkmesh_gatewa.RouteAssertions.Domains.Fixed.{IsHost, dotted-filled}
use blackcat_darkmesh_gatewa.RouteAssertions.Issue.{signing_key, signature_ref_of, or_text}
use blackcat_darkmesh_gatewa.RouteAssertions.Inputs.{
  is_hex, is_hex_text, is_nonce, is_nonce_char, optional_value,
}
use blackcat_darkmesh_gatewa.RouteAssertions.Journey.Parsing.{IsClean, IsFilled}
use blackcat_darkmesh_gatewa.Base.{
  ℕ, ◌≤◌, ◌<◌, ◌≡◌, refl, sym, ap, ◌∙◌, inl, inr, String, Bool, true, false, ◌&&◌, Option, none,
  some, ◌===◌, eq_iff, arith, leb, ◌==◌, or_else, Bool-cases, leb→le,
}

id_char-space : (c : ℕ) → is_id_char c ≡ true → is_space c ≡ false
id_char-space c h = ground arith

nonce_char-space : (c : ℕ) → is_nonce_char c ≡ true → is_space c ≡ false
nonce_char-space c h = ground arith

hex-space : (c : ℕ) → is_hex c ≡ true → is_space c ≡ false
hex-space c h = ground arith

all_three : (a b c : Bool) → (a && b && c) ≡ true → (a ≡ true) × (b ≡ true) × (c ≡ true)
all_three a b c h = ground arith

both : (a b : Bool) → (a && b) ≡ true → (a ≡ true) × (b ≡ true)
both a b h = ground arith

-- A text with a positive measure is not empty.
measured : (m : String → ℕ) → m "" ≡ 0 → (s : String) → 0 < m s → (s === "") ≡ false
measured m z s pos = elim (Bool-cases (s === "")) [
  | inl e ↦ absurd (nothing (ap m ((eq_iff s "").0 e) ∙ z))
  | inr e ↦ e
]
  where
    nothing : m s ≡ 0 → ⊥
    nothing e = omega arith

spaceless-IsClean : (s : String) → has_space s ≡ false → (s === "") ≡ false → IsClean s
spaceless-IsClean s h f = record { trimmed = trim_id s h; filled = f }

chars_nil : chars "" ≡ 0
unfolding chars
chars_nil = refl

pub is_arweave_id-IsClean : (s : String) → is_arweave_id s ≡ true → IsClean s
unfolding is_arweave_id
is_arweave_id-IsClean s h =
    let (inside, least, most) =
      all_three (all_chars is_id_char s) (leb 32 (chars s)) (leb (chars s) 128) h in
    let long : 32 ≤ chars s = leb→le 32 (chars s) least in
    spaceless-IsClean s (all_chars-spaceless is_id_char id_char-space s inside)
      (measured chars chars_nil s (omega arith))

pub is_nonce-IsClean : (s : String) → is_nonce s ≡ true → IsClean s
unfolding is_nonce
is_nonce-IsClean s h =
    let (inside, least, most) =
      all_three (all_chars is_nonce_char s) (leb 8 (chars s)) (leb (chars s) 256) h in
    let long : 8 ≤ chars s = leb→le 8 (chars s) least in
    spaceless-IsClean s (all_chars-spaceless is_nonce_char nonce_char-space s inside)
      (measured chars chars_nil s (omega arith))

pub is_hex_text-IsClean : (n : ℕ) (s : String) → 0 < n → is_hex_text n s ≡ true → IsClean s
unfolding is_hex_text
is_hex_text-IsClean n s pos h =
    let (size, inside) = both (chars s == n) (all_chars is_hex s) h in
    let long : 0 < chars s = ground arith in
    spaceless-IsClean s (all_chars-spaceless is_hex hex-space s inside)
      (measured chars chars_nil s long)

pub IsHost-IsClean : (p : Platform) (name : String) → IsHost p name → IsClean name
IsHost-IsClean p name i =
    spaceless-IsClean name (host_chars-space name (all_labels-chars name i.labelled))
      (dotted-filled name i.dotted)

pub optional_value-IsFilled : (v : Option String) → IsFilled (optional_value v)
unfolding optional_value
optional_value-IsFilled v = elim (Bool-cases (clean_env v === "")) [
  | inl e ↦ rw e tt
  | inr e ↦ rw e e
]

pub or_root-IsFilled : (o : Option String) → IsFilled o → IsFilled (some (or_else o "/"))
or_root-IsFilled none f = refl
or_root-IsFilled (some s) f = f

pub trim-clean_env : (v : Option String) → trim (clean_env v) ≡ clean_env v
unfolding clean_env has_space
trim-clean_env none = trim_id "" refl
trim-clean_env (some s) = trim-trim s

or_text-IsClean : (s : String) → trim s ≡ s → IsClean (or_text s "worker-ed25519")
unfolding has_space
or_text-IsClean s t = elim (Bool-cases (s === "")) [
  | inl e ↦ rw e (record { trimmed = trim_id "worker-ed25519" refl; filled = refl })
  | inr e ↦ rw e (record { trimmed = t; filled = e })
]

pub signature_ref_of-IsClean : (env : AssertEnv) → IsClean (signature_ref_of env)
unfolding signature_ref_of
signature_ref_of-IsClean env =
    or_text-IsClean (clean_env (or_setting env.route_assert_signature_ref env.worker_signature_ref))
      (trim-clean_env (or_setting env.route_assert_signature_ref env.worker_signature_ref))

-- The key that signs is a clean text of 64 hexadecimal digits.
pub record IsKey (env : AssertEnv) (key : String) : Type 0 where
  pub found :
      clean_env (or_setting env.route_assert_signing_key_hex env.worker_ed25519_priv_hex) ≡ key
  pub filled : (key === "") ≡ false
  pub hex : is_hex_text 64 key ≡ true

pub signing_key-IsKey : (env : AssertEnv) (key : String) → signing_key env ≡ ok key → IsKey env key
unfolding signing_key
signing_key-IsKey env key h =
    let setting =
      clean_env (or_setting env.route_assert_signing_key_hex env.worker_ed25519_priv_hex) in
    elim (Bool-cases (setting === "")) [
      | inl e ↦ absurd (
          no_key
            (refused (some "worker_route_assert_fail_total") 500 "missing_route_assert_signing_key")
            (sym (rw e refl) ∙ h))
      | inr e ↦ elim (Bool-cases (is_hex_text 64 setting)) [
        | inl f ↦
            let same : setting ≡ key = ok_inj setting key (sym (rw (e, f) refl) ∙ h) in
            record {
              found = same;
              filled = ap (λ k. k === "") (sym same) ∙ e;
              hex = ap (is_hex_text 64) (sym same) ∙ f;
            }
        | inr f ↦ absurd (
            no_key (refused none 500 "invalid_route_assert_signing_key") (sym (rw (e, f) refl) ∙ h))
      ]
    ]
  where
    no_key : (f : Failure) → ◌≡◌ {A = Outcome String} (err f) (ok key) → ⊥
    no_key f e = cc
