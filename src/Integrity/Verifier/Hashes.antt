-- ===== src/Integrity/Verifier/Hashes.antt =====
-- The hash of an entry and the one that the policy expects.
use blackcat_darkmesh_gatewa.Integrity.Verifier.{
  IntegrityManifestEntry, ok, normalize_integrity_token, or_next, resolve_entry_hash, check_hash,
}
use blackcat_darkmesh_gatewa.Base.{
  ◌≡◌, refl, ◌↔◌, ◌⊎◌, inl, inr, String, Option, none, some, eq_iff, arith,
}

-- An expected hash, where there is one, is the entry's.
abbrev pub HashFits : Option String → Option String → Type 0
HashFits none actual = Unit {0}
HashFits (some expected) actual = actual ≡ some expected

pub check_hash-ok :
    (expected actual : Option String) → (check_hash expected actual ≡ ok) ↔ HashFits expected actual
unfolding check_hash
check_hash-ok none actual = (λ h. tt, λ h. refl)
check_hash-ok (some e) none = (λ h. cc, λ h. cc)
check_hash-ok (some e) (some a) = (λ h. ground (arith, eq_iff a e), λ h. ground (arith, eq_iff a e))

-- The first of the hash, the URI's hash and the metadata's hash that has a normal form has this one.
abbrev pub FirstHash : IntegrityManifestEntry → String → Type 0
FirstHash entry token =
    (normalize_integrity_token entry.hash ≡ some token)
    ⊎ ((normalize_integrity_token entry.hash ≡ none)
        × ((normalize_integrity_token entry.uri_hash ≡ some token)
            ⊎ ((normalize_integrity_token entry.uri_hash ≡ none)
                × (normalize_integrity_token entry.meta_hash ≡ some token))))

-- No hash is expected, or it is the entry's first.
abbrev pub HashExpected : IntegrityManifestEntry → Option String → Type 0
HashExpected entry none = Unit {0}
HashExpected entry (some token) = FirstHash entry token

or_next-first :
    (h u m : Option String) (token : String)
    → (or_next h (or_next u m) ≡ some token)
      ↔ ((h ≡ some token) ⊎ ((h ≡ none) × ((u ≡ some token) ⊎ ((u ≡ none) × (m ≡ some token)))))
or_next-first (some h) u m token = (λ e. inl e, λ f. elim f [ inl e ↦ e | inr (e, r) ↦ cc ])
or_next-first none (some u) m token = (
  λ e. inr (refl, inl e),
  λ f. elim f [ inl e ↦ cc | inr (e, g) ↦ elim g [ inl k ↦ k | inr (k, r) ↦ cc ] ],
)
or_next-first none none m token = (
  λ e. inr (refl, inr (refl, e)),
  λ f. elim f [ inl e ↦ cc | inr (e, g) ↦ elim g [ inl k ↦ cc | inr (k, r) ↦ r ] ],
)

pub HashFits-HashExpected :
    (entry : IntegrityManifestEntry) (expected : Option String)
    → HashFits expected (resolve_entry_hash entry) ↔ HashExpected entry expected
unfolding resolve_entry_hash
HashFits-HashExpected entry none = (λ h. h, λ h. h)
HashFits-HashExpected entry (some token) =
    or_next-first (normalize_integrity_token entry.hash) (normalize_integrity_token entry.uri_hash)
      (normalize_integrity_token entry.meta_hash) token
