-- ===== src/Integrity/Verifier/Roots.antt =====
-- The roots that verifyManifestEntry trusts, and what is known of a root that it finds among them.
use blackcat_darkmesh_gatewa.Auth.{add, includes}
use blackcat_darkmesh_gatewa.Integrity.Verifier.{
  IntegrityTrustedRoot, normalize_integrity_token, is_token, some_root, add_token, collect_from,
  collect_trusted_roots,
}
use blackcat_darkmesh_gatewa.Integrity.Verifier.Tokens.{normalize-IsToken, normalize_fixed}
use blackcat_darkmesh_gatewa.Base.{
  ◌≡◌, refl, sym, ap, ◌∙◌, ◌↔◌, ◌⊎◌, inl, inr, String, Bool, true, false, ◌||◌, Option, none, some,
  List, [], ◌∷◌, ◌++◌, ◌===◌, eq_iff, arith, or_else, Any, Bool-cases, Option-cases,
}

some_root-append :
    (xs ys : List String) (r : String) → some_root (xs ++ ys) r ≡ (some_root xs r || some_root ys r)
unfolding some_root
some_root-append [] ys r = refl
some_root-append (x ∷ xs) ys r = rw (some_root-append xs ys r) (ground arith)

some_root-includes :
    (t r : String) (roots : List String)
    → normalize_integrity_token (some t) ≡ some t
    → includes t roots ≡ true
    → (t === r) ≡ true
    → some_root roots r ≡ true
unfolding some_root
some_root-includes t r [] fixed h e = cc
some_root-includes t r (y ∷ ys) fixed h e = elim (Bool-cases (y === t)) [
  | inl same ↦ rw ((eq_iff y t).0 same, fixed) (ground arith)
  | inr other ↦ ground (arith, some_root-includes t r ys fixed)
]

some_root-add :
    (t r : String) (roots : List String)
    → normalize_integrity_token (some t) ≡ some t
    → some_root (add t roots) r ≡ ((t === r) || some_root roots r)
unfolding some_root
some_root-add t r roots fixed = elim (Bool-cases (includes t roots)) [
  | inl there ↦ rw there (ground (arith, some_root-includes t r roots fixed there))
  | inr new ↦ rw (new, some_root-append roots (t ∷ []) r, fixed) (ground arith)
]

some_root-add_token :
    (o : Option String) (r : String) (roots : List String)
    → some_root (add_token (normalize_integrity_token o) roots) r
      ≡ (is_token (normalize_integrity_token o) r || some_root roots r)
some_root-add_token o r roots = elim (Option-cases (normalize_integrity_token o)) [
  | inl e ↦ rw e refl
  | inr (t, e) ↦ rw e (some_root-add t r roots (normalize_fixed t (normalize-IsToken o t e)))
]

some_root-collect_from :
    (rest roots : List String) (r : String)
    → some_root (collect_from rest roots) r ≡ (some_root rest r || some_root roots r)
unfolding collect_from some_root
some_root-collect_from [] roots r = refl
some_root-collect_from (x ∷ xs) roots r =
    rw
      (
        some_root-collect_from xs (add_token (normalize_integrity_token (some x)) roots) r,
        some_root-add_token (some x) r roots,
      )
      (ground arith)

-- One of the texts has the normal form.
abbrev pub SomeRoot : List String → String → Type 0
SomeRoot roots r = Any (λ t. normalize_integrity_token (some t) ≡ some r) roots

is_token-some : (o : Option String) (r : String) → (is_token o r ≡ true) ↔ (o ≡ some r)
is_token-some none r = (λ h. cc, λ h. cc)
is_token-some (some t) r = (λ h. ap (λ x. some x) ((eq_iff t r).0 h), λ h. (eq_iff t r).1 (cc))

or_true : (a b : Bool) → (a ≡ true) ⊎ (b ≡ true) → (a || b) ≡ true
or_true a b (inl e) = ground (arith, e)
or_true a b (inr e) = ground (arith, e)

true_or : (a b : Bool) → (a || b) ≡ true → (a ≡ true) ⊎ (b ≡ true)
true_or true b h = inl refl
true_or false b h = inr h

some_root-SomeRoot :
    (roots : List String) (r : String) → (some_root roots r ≡ true) ↔ SomeRoot roots r
unfolding some_root
some_root-SomeRoot [] r = (λ h. cc, λ h. elim h [ ])
some_root-SomeRoot (x ∷ xs) r = (
  λ h. elim (true_or (is_token (normalize_integrity_token (some x)) r) (some_root xs r) h) [
    | inl e ↦ inl ((is_token-some (normalize_integrity_token (some x)) r).0 e)
    | inr e ↦ inr ((some_root-SomeRoot xs r).0 e)
  ],
  λ h. or_true (is_token (normalize_integrity_token (some x)) r) (some_root xs r) (elim h [
    | inl e ↦ inl ((is_token-some (normalize_integrity_token (some x)) r).1 e)
    | inr e ↦ inr ((some_root-SomeRoot xs r).1 e)
  ]),
)

-- The policy names the root, as its active root or in its list.
abbrev pub Trusts : IntegrityTrustedRoot → String → Type 0
Trusts policy r =
    SomeRoot (or_else policy.trusted_roots []) r
    ⊎ (normalize_integrity_token policy.active_root ≡ some r)

or_or_false : (a b : Bool) → (a || (b || false)) ≡ (a || b)
or_or_false a b = ground arith

some_root-collect :
    (policy : IntegrityTrustedRoot) (r : String)
    → some_root (collect_trusted_roots policy) r ≡ (
        some_root (or_else policy.trusted_roots []) r
        || is_token (normalize_integrity_token policy.active_root) r)
unfolding collect_trusted_roots some_root
some_root-collect policy r =
    rw
      (
        some_root-collect_from (or_else policy.trusted_roots [])
            (add_token (normalize_integrity_token policy.active_root) []) r,
        some_root-add_token policy.active_root r [],
      )
      (or_or_false (some_root (or_else policy.trusted_roots []) r)
        (is_token (normalize_integrity_token policy.active_root) r))

pub collect-Trusts :
    (policy : IntegrityTrustedRoot) (r : String)
    → (some_root (collect_trusted_roots policy) r ≡ true) ↔ Trusts policy r
collect-Trusts policy r =
    let listed = some_root (or_else policy.trusted_roots []) r in
    let active = is_token (normalize_integrity_token policy.active_root) r in
    (
      λ h. elim (true_or listed active (sym (some_root-collect policy r) ∙ h)) [
        | inl e ↦ inl ((some_root-SomeRoot (or_else policy.trusted_roots []) r).0 e)
        | inr e ↦ inr ((is_token-some (normalize_integrity_token policy.active_root) r).0 e)
      ],
      λ h.
          some_root-collect policy r
          ∙ or_true listed active (elim h [
            | inl e ↦ inl ((some_root-SomeRoot (or_else policy.trusted_roots []) r).1 e)
            | inr e ↦ inr ((is_token-some (normalize_integrity_token policy.active_root) r).1 e)
          ]),
    )
