-- ===== src/SiteConfig/Keys.antt =====
-- workers/async-worker/src/configSignatureVerifier.ts: bytes, public keys and the two verifiers. Bytes are
-- numbers; a signed payload is kept as the text that `toBytes` encodes.
use Prim.Native.Char.{Char, code}
use Prim.Native.String.{◌++◌ as ◌+++◌}
use blackcat_darkmesh_gatewa.Text.{all_chars, chars}
use blackcat_darkmesh_gatewa.SiteConfig.Validator.{is_base64_char}
use blackcat_darkmesh_gatewa.Base.{
  ℕ, zero, suc, ◌-◌, ◌%◌, String, Bool, false, ◌||◌, not, Option, none, some, List, [], ◌∷◌, ◌===◌,
  ◌==◌, if◌then◌else◌, or_else, length,
}

pub data KeyFormat : Type 0 where
  raw : KeyFormat
  spki : KeyFormat

pub data Algorithm : Type 0 where
  ed25519 : Algorithm
  rsa_pss : Algorithm

abbrev pub Bytes : Type 0
Bytes = List ℕ

-- `crypto.subtle` and `atob`, where `none` is a call that throws. A key is a handle.
pub record Subtle : Type 0 where
  pub import_key : KeyFormat → Algorithm → Bytes → Option ℕ
  pub verify : Algorithm → ℕ → Bytes → String → Option Bool
  pub atob : String → Option Bytes

-- `string | Uint8Array`
pub data KeySource : Type 0 where
  key_text : String → KeySource
  key_bytes : Bytes → KeySource

-- `-` becomes `+`, and `_` becomes `/`.
abbrev plain_char : Char → Char
plain_char c = if code c == b'-' then "+" else if code c == b'_' then "/" else c

unfoldable pub plain_base64 : String → String
plain_base64 String.[] = String.[]
plain_base64 (String.◌∷◌ c s) = String.◌∷◌ (plain_char c) (plain_base64 s)

-- `'='.repeat(n)` behind a text.
unfoldable pub padded : ℕ → String → String
padded zero s = s
padded (suc n) s = padded n (s +++ "=")

-- `(4 - (length % 4 || 4)) % 4`
abbrev pub padding_length : ℕ → ℕ
padding_length length = let rest = if length % 4 == 0 then 4 else length % 4 in (4 - rest) % 4

unfoldable pub base64_url_to_bytes : Subtle → String → Option Bytes
unfolding all_chars plain_base64 padded chars
base64_url_to_bytes p input =
    let normalized = plain_base64 input in
    if (input === "") || not (all_chars is_base64_char input)
    then none
    else p.atob (padded (padding_length (chars normalized)) normalized)

unfoldable pub normalize_public_key : Subtle → KeySource → Option Bytes
unfolding base64_url_to_bytes
normalize_public_key p (key_text s) = base64_url_to_bytes p s
normalize_public_key p (key_bytes []) = none
normalize_public_key p (key_bytes (byte ∷ bytes)) = some (byte ∷ bytes)

abbrev verified_with : Subtle → Algorithm → String → Bytes → Option ℕ → Bool
verified_with p algorithm payload signature none = false
verified_with p algorithm payload signature (some key) =
    or_else (p.verify algorithm key signature payload) false

-- The raw form is tried for 32 bytes only.
abbrev raw_key : Subtle → Bytes → Option ℕ
raw_key p public_key = if length public_key == 32 then p.import_key raw ed25519 public_key else none

abbrev or_spki : Subtle → Bytes → Option ℕ → Option ℕ
or_spki p public_key (some key) = some key
or_spki p public_key none = p.import_key spki ed25519 public_key

unfoldable pub import_ed25519_public_key : Subtle → Bytes → Option ℕ
import_ed25519_public_key p public_key = or_spki p public_key (raw_key p public_key)

unfoldable pub verify_ed25519_signature : Subtle → String → Bytes → Bytes → Bool
unfolding import_ed25519_public_key
verify_ed25519_signature p payload signature public_key =
    verified_with p ed25519 payload signature (import_ed25519_public_key p public_key)

unfoldable pub verify_rsa_pss_sha256_signature : Subtle → String → Bytes → Bytes → Bool
verify_rsa_pss_sha256_signature p payload signature public_key =
    verified_with p rsa_pss payload signature (p.import_key spki rsa_pss public_key)
