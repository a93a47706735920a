-- ===== src/Integrity/Verifier/Tests.antt =====
-- The verifier by example.
use blackcat_darkmesh_gatewa.Integrity.Verifier.{
  IntegrityManifestEntry, IntegrityTrustedRoot, integrity_mismatch, missing_trusted_root,
  policy_paused, ok, refused, strip_sha256, strip_0x, strip_prefixes, normalize_integrity_token,
  verify_manifest_entry,
}
use blackcat_darkmesh_gatewa.Integrity.Verifier.Tokens.{
  strip_prefixes_terminates, normalize-normalize,
}
use blackcat_darkmesh_gatewa.Integrity.Verifier.Decisions.{Accepts, verify_manifest_entry-ok}
use blackcat_darkmesh_gatewa.Text.{chars}
use blackcat_darkmesh_gatewa.Base.{◌≡◌, refl, ◌↔◌, String, true, false, none, some, [], ◌∷◌, arith}

normalized : normalize_integrity_token (some " SHA256: 0xSha256=AB12 ") ≡ some "ab12"
unfolding normalize_integrity_token
normalized = refl

inner_space : normalize_integrity_token (some "0xab 12") ≡ none
unfolding normalize_integrity_token
inner_space = refl

abbrev entry : IntegrityManifestEntry
entry = record {
  root = some "0xAA";
  hash = some "  ";
  uri_hash = some "sha256-BB";
  meta_hash = none;
}

abbrev policy : IntegrityTrustedRoot
policy = record {
  active_root = some "cc";
  trusted_roots = some ("dd" ∷ "sha256:aa" ∷ []);
  expected_hash = some "bb";
  paused = false;
}

accepted : verify_manifest_entry entry policy ≡ ok
unfolding verify_manifest_entry
accepted = refl

other_root :
    verify_manifest_entry (record entry { root = some "ee" }) policy ≡ refused integrity_mismatch
unfolding verify_manifest_entry
other_root = refl

no_roots :
    verify_manifest_entry entry (record policy { active_root = none; trusted_roots = none })
    ≡ refused missing_trusted_root
unfolding verify_manifest_entry
no_roots = refl

paused_first :
    verify_manifest_entry (record entry { root = none }) (record policy { paused = true })
    ≡ refused policy_paused
unfolding verify_manifest_entry
paused_first = refl

strip_prefixes_terminates_example :
    (rest : String) × (strip_prefixes 20 "sha256:0x0xab" ≡ some rest)
    × (strip_sha256 rest ≡ none)
    × (strip_0x rest ≡ none)
unfolding chars
strip_prefixes_terminates_example = strip_prefixes_terminates 20 "sha256:0x0xab" (omega arith)

normalize-normalize_example :
    normalize_integrity_token (normalize_integrity_token (some " 0xAB "))
    ≡ normalize_integrity_token (some " 0xAB ")
normalize-normalize_example = normalize-normalize (some " 0xAB ")

verify_manifest_entry-ok_example : (verify_manifest_entry entry policy ≡ ok) ↔ Accepts entry policy
verify_manifest_entry-ok_example = verify_manifest_entry-ok entry policy
