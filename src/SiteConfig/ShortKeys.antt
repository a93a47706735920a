-- ===== src/SiteConfig/ShortKeys.antt =====
-- The keys that fit into a TXT record: workers/async-worker/src/index.ts gives the record's kid as the key
-- under which a config is verified.
use text.Mathlib.TextLemmas.{nil-append, cons-append}
use Prim.Native.String.{◌++◌ as ◌+++◌}
use blackcat_darkmesh_gatewa.Text.{all_chars, chars}
use blackcat_darkmesh_gatewa.DnsTxt
use blackcat_darkmesh_gatewa.DnsTxt.{
  DmTxtEnvelope, is_id_char, is_arweave_id, parse_and_validate_dm_txt_envelope,
}
use blackcat_darkmesh_gatewa.DnsTxt.Accepted.{parse_and_validate_dm_txt_envelope-ok}
use blackcat_darkmesh_gatewa.SiteConfig.Validator.{is_base64_char}
use blackcat_darkmesh_gatewa.SiteConfig.Keys.{
  Bytes, Subtle, key_text, plain_base64, padded, padding_length, base64_url_to_bytes,
  normalize_public_key,
}
use blackcat_darkmesh_gatewa.SiteConfig.Signature.{
  DmConfigSignatureBlock, VerifyOptions, resolve_public_key, key_of,
}
use blackcat_darkmesh_gatewa.Base.{
  ℕ, zero, suc, ◌+◌, ◌*◌, ◌≤◌, ◌≡◌, refl, ap, String, Bool, true, false, ◌&&◌, ◌||◌, not, Option,
  none, some, ◌===◌, arith, leb, if◌then◌else◌, length,
}

-- Four characters of base64 decode to three bytes at most.
abbrev pub DecodesByFours : Subtle → Type 0
DecodesByFours p =
    (s : String) (bytes : Bytes) → p.atob s ≡ some bytes → 4 * length bytes ≤ 3 * chars s

-- The worker's options: the kid of the TXT record is the key, and the time is the clock's.
abbrev pub options_of : DmTxtEnvelope → ℕ → VerifyOptions
options_of envelope clock = record {
  public_key = some (key_text envelope.kid);
  now = none;
  clock = clock;
}

chars-plain_base64 : (s : String) → chars (plain_base64 s) ≡ chars s
unfolding chars plain_base64
chars-plain_base64 String.[] = refl
chars-plain_base64 (String.◌∷◌ c s) = ap suc (chars-plain_base64 s)

chars-append : (s t : String) → chars (s +++ t) ≡ chars s + chars t
unfolding chars
chars-append String.[] t = rw (nil-append t) (omega arith)
chars-append (String.◌∷◌ c s) t = rw (cons-append c s t, chars-append s t) (omega arith)

chars-padded : (n : ℕ) (s : String) → chars (padded n s) ≡ n + chars s
unfolding padded chars
chars-padded zero s = omega arith
chars-padded (suc n) s = rw (chars-padded n (s +++ "="), chars-append s "=") (omega arith)

padding_fits : (n : ℕ) → n ≤ 128 → padding_length n + n ≤ 128
padding_fits n h = ground arith

three_parts : (a b c : Bool) → (a && b && c) ≡ true → c ≡ true
three_parts a b c h = ground arith

is_arweave_id-short : (s : String) → is_arweave_id s ≡ true → chars s ≤ 128
unfolding is_arweave_id
is_arweave_id-short s h =
    let e = three_parts (all_chars is_id_char s) (leb 32 (chars s)) (leb (chars s) 128) h in
    ground arith

if_some :
    {A : Type 0} (test : Bool) (r : Option A) (a : A)
    → (if test then none else r) ≡ some a
    → r ≡ some a
if_some true r a h = cc
if_some false r a h = h

base64_url_to_bytes-short :
    (p : Subtle)
    → DecodesByFours p
    → (s : String) (bytes : Bytes) → chars s ≤ 128
    → base64_url_to_bytes p s ≡ some bytes
    → length bytes ≤ 96
unfolding base64_url_to_bytes
base64_url_to_bytes-short p fours s bytes small h =
    let normalized = plain_base64 s in
    let decoded =
      if_some ((s === "") || not (all_chars is_base64_char s))
        (p.atob (padded (padding_length (chars normalized)) normalized)) bytes h in
    let most = fours (padded (padding_length (chars normalized)) normalized) bytes decoded in
    let size = chars-padded (padding_length (chars normalized)) normalized in
    let fits = padding_fits (chars normalized) (rw (chars-plain_base64 s) small) in omega arith

-- Where `atob` makes at most three bytes of four characters, the key that the worker takes from
-- an accepted TXT record to verify any config has at most 96 bytes.
pub resolve_public_key-short :
    (p : Subtle)
    → DecodesByFours p
    → (raw : String) (envelope : DmTxtEnvelope)
    → parse_and_validate_dm_txt_envelope (some raw) ≡ DnsTxt.ok envelope
    → (config : DmConfigSignatureBlock) (clock : ℕ) (key : Bytes)
    → resolve_public_key p config (options_of envelope clock) ≡ some key
    → length key ≤ 96
unfolding resolve_public_key key_of normalize_public_key
resolve_public_key-short p fours raw envelope parsed config clock key h =
    let (_, _, _, _, _, kid, _, _) = parse_and_validate_dm_txt_envelope-ok raw envelope parsed in
    base64_url_to_bytes-short p fours envelope.kid key (is_arweave_id-short envelope.kid kid) h
