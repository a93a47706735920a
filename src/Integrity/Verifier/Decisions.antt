-- ===== src/Integrity/Verifier/Decisions.antt =====
-- The decision of verifyManifestEntry against a description of the accepted entries.
use blackcat_darkmesh_gatewa.Integrity.Verifier.{
  IntegrityManifestEntry, IntegrityTrustedRoot, policy_paused, ok, refused,
  normalize_integrity_token, some_root, is_trusted_root, collect_trusted_roots, resolve_entry_hash,
  check_hash, check_root, verify_manifest_entry,
}
use blackcat_darkmesh_gatewa.Integrity.Verifier.Tokens.{normalize-IsToken, normalize_fixed}
use blackcat_darkmesh_gatewa.Integrity.Verifier.Roots.{Trusts, collect-Trusts}
use blackcat_darkmesh_gatewa.Integrity.Verifier.Hashes.{
  HashFits-HashExpected, HashExpected, check_hash-ok,
}
use blackcat_darkmesh_gatewa.Base.{
  ◌≡◌, refl, sym, ◌∙◌, ◌↔◌, inl, inr, String, true, false, Option, none, some, List, [], ◌∷◌, arith,
  Bool-cases,
}

-- What `verifyManifestEntry` accepts.
pub record Accepts (entry : IntegrityManifestEntry) (policy : IntegrityTrustedRoot) : Type 0 where
  pub running : policy.paused ≡ false
  pub root : String
  pub rooted : normalize_integrity_token entry.root ≡ some root
  pub trusted : Trusts policy root
  pub hashed : HashExpected entry (normalize_integrity_token policy.expected_hash)

is_trusted_root-token :
    (root : Option String) (r : String) (roots : List String)
    → normalize_integrity_token root ≡ some r
    → is_trusted_root (some r) (some roots) ≡ some_root roots r
unfolding is_trusted_root
is_trusted_root-token root r roots e = rw (normalize_fixed r (normalize-IsToken root r e)) refl

-- What a passed check of roots and hashes was given.
record Checked (root : Option String) (roots : List String) (expected actual : Option String)
    : Type 0 where
  pub token : String
  pub found : root ≡ some token
  pub listed : is_trusted_root (some token) (some roots) ≡ true
  pub fits : check_hash expected actual ≡ ok

check_root-Checked :
    (root : Option String) (roots : List String) (expected actual : Option String)
    → check_root root roots expected actual ≡ ok
    → Checked root roots expected actual
unfolding check_root
check_root-Checked none roots expected actual h = cc
check_root-Checked (some r) [] expected actual h = cc
check_root-Checked (some r) (t ∷ roots) expected actual h = record {
  token = r;
  found = refl;
  listed = ground arith;
  fits = ground arith;
}

check_root_passes :
    (r : String) (roots : List String) (expected actual : Option String)
    → is_trusted_root (some r) (some roots) ≡ true
    → some_root roots r ≡ true
    → check_hash expected actual ≡ ok
    → check_root (some r) roots expected actual ≡ ok
unfolding check_root some_root
check_root_passes r [] expected actual h k c = cc
check_root_passes r (t ∷ roots) expected actual h k c = rw h c

module _ (entry : IntegrityManifestEntry) (policy : IntegrityTrustedRoot) where
  verify_running :
      policy.paused ≡ false
      → verify_manifest_entry entry policy
        ≡ check_root
            (normalize_integrity_token entry.root)
            (collect_trusted_roots policy)
            (normalize_integrity_token policy.expected_hash)
            (resolve_entry_hash entry)
  unfolding verify_manifest_entry
  verify_running e = rw e refl

  verify_paused : policy.paused ≡ true → verify_manifest_entry entry policy ≡ refused policy_paused
  unfolding verify_manifest_entry
  verify_paused e = rw e refl

  Checked-Accepts :
      policy.paused ≡ false
      → Checked
          (normalize_integrity_token entry.root)
          (collect_trusted_roots policy)
          (normalize_integrity_token policy.expected_hash)
          (resolve_entry_hash entry)
      → Accepts entry policy
  Checked-Accepts e c = record {
    running = e;
    root = c.token;
    rooted = c.found;
    trusted = (collect-Trusts policy c.token).0 (
        sym (is_trusted_root-token entry.root c.token (collect_trusted_roots policy) c.found)
        ∙ c.listed);
    hashed = (HashFits-HashExpected entry (normalize_integrity_token policy.expected_hash)).0 (
        (check_hash-ok (normalize_integrity_token policy.expected_hash)
            (resolve_entry_hash entry)).0
          c.fits);
  }

  verify-Accepts : verify_manifest_entry entry policy ≡ ok → Accepts entry policy
  verify-Accepts h = elim (Bool-cases policy.paused) [
    | inl e ↦ absurd (cc (verify_paused e))
    | inr e ↦ Checked-Accepts e (
        check_root-Checked (normalize_integrity_token entry.root) (collect_trusted_roots policy)
          (normalize_integrity_token policy.expected_hash) (resolve_entry_hash entry)
          (sym (verify_running e) ∙ h))
  ]

  Accepts-verify : Accepts entry policy → verify_manifest_entry entry policy ≡ ok
  Accepts-verify a =
      let listed : some_root (collect_trusted_roots policy) a.root ≡ true =
        (collect-Trusts policy a.root).1 a.trusted in
      verify_running a.running
      ∙ (rw a.rooted (
          check_root_passes a.root (collect_trusted_roots policy)
            (normalize_integrity_token policy.expected_hash) (resolve_entry_hash entry)
            (is_trusted_root-token entry.root a.root (collect_trusted_roots policy) a.rooted
              ∙ listed)
            listed
            ((check_hash-ok (normalize_integrity_token policy.expected_hash)
                (resolve_entry_hash entry)).1
              ((HashFits-HashExpected entry (normalize_integrity_token policy.expected_hash)).1
                a.hashed))))

-- An entry passes exactly when the policy is not paused, the entry's root has a normal form that is the
-- normal form of the active root or of a listed one, and the policy expects no hash or the first
-- hash of the entry that has a normal form is the expected one.
pub verify_manifest_entry-ok :
    (entry : IntegrityManifestEntry) (policy : IntegrityTrustedRoot)
    → (verify_manifest_entry entry policy ≡ ok) ↔ Accepts entry policy
verify_manifest_entry-ok entry policy = (verify-Accepts entry policy, Accepts-verify entry policy)
