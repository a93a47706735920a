-- ===== src/Integrity/Verifier.antt =====
-- src/integrity/verifier.ts: tokens of roots and hashes in their normal form, and the decision on an
-- entry of the manifest. A value that is missing, or no text, is `none`; `sha256Hex` calls a library.
pub mod Tokens
pub mod Roots
pub mod Hashes
pub mod Decisions
mod Tests
use Prim.Native.Char.{code}
use blackcat_darkmesh_gatewa.Auth.{add}
use blackcat_darkmesh_gatewa.Text.{
  trim, to_lower, lower_char, strip_prefix_ignore_case, has_space, chars,
}
use blackcat_darkmesh_gatewa.Base.{
  ℕ, zero, suc, ◌+◌, ◌-◌, ◌*◌, ◌/◌, ◌%◌, ◌^◌, ◌≤◌, ◌<◌, min, max, ◌≡◌, refl, sym, ap, ◌∙◌, subst,
  ◌≢◌, ◌↔◌, ◌⊎◌, inl, inr, String, Bool, true, false, ◌&&◌, ◌||◌, not, Option, none, some, List, [],
  ◌∷◌, ◌++◌, map, ◌===◌, eq_iff, eq_refl, arith, ltb, leb, ◌==◌, if◌then◌else◌, is_some, or_else,
  option_map, Bool-cases, Option-cases, length, length-append, All, All-append, Any, leb→le, le→leb,
  ltb→lt, lt→ltb,
}

pub record IntegrityManifestEntry : Type 0 where
  pub root : Option String
  pub hash : Option String
  pub uri_hash : Option String
  pub meta_hash : Option String

pub record IntegrityTrustedRoot : Type 0 where
  pub active_root : Option String
  pub trusted_roots : Option (List String)
  pub expected_hash : Option String
  pub paused : Bool

pub data IntegrityCheckCode : Type 0 where
  integrity_mismatch : IntegrityCheckCode
  missing_trusted_root : IntegrityCheckCode
  policy_paused : IntegrityCheckCode

pub data IntegrityCheckResult : Type 0 where
  ok : IntegrityCheckResult
  refused : IntegrityCheckCode → IntegrityCheckResult

-- `[:=\-]`
abbrev is_separator : ℕ → Bool
is_separator c = c == b':' || c == b'=' || c == b'-'

unfoldable pub after_separator : Option String → Option String
after_separator none = none
after_separator (some String.[]) = none
after_separator (some (String.◌∷◌ c s)) =
    if is_separator (code (lower_char c)) then some s else none

-- `/^sha256[:=\-]/i`: what is behind the prefix, where it stands.
unfoldable pub strip_sha256 : String → Option String
unfolding after_separator strip_prefix_ignore_case
strip_sha256 value = after_separator (strip_prefix_ignore_case "sha256" value)

-- `/^0x/i`
unfoldable pub strip_0x : String → Option String
unfolding strip_prefix_ignore_case
strip_0x value = strip_prefix_ignore_case "0x" value

-- One pass of the inner loop: the text and whether a prefix was taken away.
abbrev strip_one : Option String → String × Bool → String × Bool
strip_one none (value, normalized) = (value, normalized)
strip_one (some stripped) (value, normalized) = (trim stripped, true)

abbrev strip_next : String × Bool → String × Bool
strip_next (value, normalized) = strip_one (strip_0x value) (value, normalized)

unfoldable pub strip_round : String → String × Bool
unfolding strip_sha256 strip_0x trim
strip_round value = strip_next (strip_one (strip_sha256 value) (value, false))

-- The outer loop, with `none` where the fuel ran out.
unfoldable pub strip_prefixes : ℕ → String → Option String
unfolding strip_round
strip_prefixes zero value = none
strip_prefixes (suc fuel) value =
    let rest = strip_prefixes fuel (strip_round value).0 in
    if (strip_round value).1 then rest else some (strip_round value).0

abbrev lowered : Option String → Option String
lowered none = none
lowered (some value) =
    if (to_lower value === "") || has_space (to_lower value) then none else some (to_lower value)

unfoldable pub normalize_integrity_token : Option String → Option String
unfolding strip_prefixes to_lower has_space trim chars
normalize_integrity_token none = none
normalize_integrity_token (some input) =
    if trim input === ""
    then none
    else lowered (strip_prefixes (suc (chars (trim input))) (trim input))

abbrev pub is_token : Option String → String → Bool
is_token none root = false
is_token (some trusted) root = trusted === root

unfoldable pub some_root : List String → String → Bool
unfolding normalize_integrity_token
some_root [] root = false
some_root (trusted ∷ roots) root =
    is_token (normalize_integrity_token (some trusted)) root || some_root roots root

abbrev trusts : Option String → List String → Bool
trusts none roots = false
trusts (some root) roots = some_root roots root

-- An empty list of roots trusts none, as the loop over it says.
unfoldable pub is_trusted_root : Option String → Option (List String) → Bool
unfolding normalize_integrity_token some_root
is_trusted_root root none = false
is_trusted_root root (some roots) = trusts (normalize_integrity_token root) roots

abbrev pub add_token : Option String → List String → List String
add_token none roots = roots
add_token (some token) roots = add token roots

unfoldable pub collect_from : List String → List String → List String
unfolding normalize_integrity_token
collect_from [] roots = roots
collect_from (root ∷ rest) roots =
    collect_from rest (add_token (normalize_integrity_token (some root)) roots)

unfoldable pub collect_trusted_roots : IntegrityTrustedRoot → List String
unfolding normalize_integrity_token collect_from
collect_trusted_roots policy =
    collect_from (or_else policy.trusted_roots [])
      (add_token (normalize_integrity_token policy.active_root) [])

abbrev pub or_next : Option String → Option String → Option String
or_next none other = other
or_next (some hash) other = some hash

unfoldable pub resolve_entry_hash : IntegrityManifestEntry → Option String
unfolding normalize_integrity_token
resolve_entry_hash entry =
    or_next (normalize_integrity_token entry.hash) (
      or_next (normalize_integrity_token entry.uri_hash)
        (normalize_integrity_token entry.meta_hash))

unfoldable pub check_hash : Option String → Option String → IntegrityCheckResult
check_hash none actual = ok
check_hash (some expected) none = refused missing_trusted_root
check_hash (some expected) (some actual) =
    if actual === expected then ok else refused integrity_mismatch

-- The checks after the pause: the entry's root, the trusted roots, the expected hash, the entry's hash.
unfoldable pub check_root :
    Option String → List String → Option String → Option String → IntegrityCheckResult
unfolding is_trusted_root check_hash
check_root none roots expected actual = refused missing_trusted_root
check_root (some root) [] expected actual = refused missing_trusted_root
check_root (some root) (first ∷ roots) expected actual =
    if not (is_trusted_root (some root) (some (first ∷ roots)))
    then refused integrity_mismatch
    else check_hash expected actual

unfoldable pub verify_manifest_entry :
    IntegrityManifestEntry → IntegrityTrustedRoot → IntegrityCheckResult
unfolding check_root collect_trusted_roots normalize_integrity_token resolve_entry_hash
verify_manifest_entry entry policy =
    if policy.paused
    then refused policy_paused
    else check_root (normalize_integrity_token entry.root) (collect_trusted_roots policy)
        (normalize_integrity_token policy.expected_hash) (resolve_entry_hash entry)
