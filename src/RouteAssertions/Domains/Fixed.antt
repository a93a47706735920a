-- ===== src/RouteAssertions/Domains/Fixed.antt =====
-- A name that the checks returned passes them again, as it is.
use Prim.Native.String.{◌++◌ as ◌+++◌}
use blackcat_darkmesh_gatewa.Text.{
  trim, to_lower, split, all_chars, includes_text, drop_trailing, chars,
}
use blackcat_darkmesh_gatewa.Text.Spaces.{trim_id}
use blackcat_darkmesh_gatewa.RouteAssertions.Outcome.{ok, Platform}
use blackcat_darkmesh_gatewa.RouteAssertions.Domains.{
  all_labels, checked_host, parsed_host, check_name, check_domain_like, DomainResult, missing,
  invalid, host, normalize_domain_like, normalize_verify_domain, or_refuse,
}
use blackcat_darkmesh_gatewa.RouteAssertions.Domains.Hosts.{
  is_host_char, all_labels-chars, all_labels-drop, host_chars-space, all_chars-includes_text,
}
use blackcat_darkmesh_gatewa.Base.{
  ℕ, ◌≤◌, ◌≡◌, refl, sym, ap, ◌∙◌, inl, inr, String, true, false, ◌||◌, some, ◌===◌, eq_iff, arith,
  ltb, Bool-cases, Option-cases,
}

-- What the URL Standard says of a URL with the scheme `http`: its host is serialised in lower case, and
-- the host so written is parsed to itself. Other schemes are not asked for.
abbrev pub HostIsStable : Platform → Type 0
HostIsStable p =
    (written name : String)
    → p.hostname ("http://" +++ written) ≡ some name
    → (to_lower name ≡ name) × (p.hostname ("http://" +++ name) ≡ some name)

-- A name in the form that the checks return.
pub record IsHost (p : Platform) (name : String) : Type 0 where
  pub parsed : p.hostname ("http://" +++ name) ≡ some name
  pub low : to_lower name ≡ name
  pub dotted : includes_text "." name ≡ true
  pub labelled : all_labels (split b'.' name) ≡ true

pub checked_host-host :
    (s name : String)
    → checked_host s ≡ host name
    → (s ≡ name) × (includes_text "." s ≡ true) × (all_labels (split b'.' s) ≡ true)
unfolding checked_host
checked_host-host s name h = elim (Bool-cases (includes_text "." s)) [
  | inl e ↦ elim (Bool-cases (all_labels (split b'.' s))) [
    | inl f ↦ (ground arith, e, f)
    | inr f ↦ absurd (ground arith)
  ]
  | inr e ↦ absurd (ground arith)
]

parsed_host-IsHost :
    (p : Platform)
    → HostIsStable p
    → (written name : String) → parsed_host (p.hostname ("http://" +++ written)) ≡ host name
    → IsHost p name
parsed_host-IsHost p stable written name h =
    elim (Option-cases (p.hostname ("http://" +++ written))) [
      | inl e ↦ absurd (no_host (ap parsed_host (sym e) ∙ h))
      | inr (s, e) ↦
          let (low, parsed) = stable written s e in
          let (same, dotted, labelled) =
            checked_host-host (to_lower s) name (ap parsed_host (sym e) ∙ h) in
          let whole : s ≡ name = sym low ∙ same in
          rw (← whole) (record {
            parsed = parsed;
            low = low;
            dotted = ap (includes_text ".") (sym low) ∙ dotted;
            labelled = ap (λ t. all_labels (split b'.' t)) (sym low) ∙ labelled;
          })
    ]
  where
    no_host : invalid ≡ host name → ⊥
    no_host e = cc

check_name-IsHost :
    (p : Platform)
    → HostIsStable p
    → (normalized name : String) → check_name p normalized ≡ host name
    → IsHost p name
unfolding check_name
check_name-IsHost p stable normalized name h =
    elim (Bool-cases
      ((normalized === "") || ltb 253 (chars normalized) || includes_text "/" normalized)) [
        | inl e ↦ absurd (no_host (sym (rw e refl) ∙ h))
        | inr e ↦ parsed_host-IsHost p stable normalized name (sym (rw e refl) ∙ h)
      ]
  where
    no_host : invalid ≡ host name → ⊥
    no_host e = cc

pub check_domain_like-IsHost :
    (p : Platform)
    → HostIsStable p
    → (value name : String) → check_domain_like p value ≡ host name
    → IsHost p name
unfolding check_domain_like
check_domain_like-IsHost p stable value name h = elim (Bool-cases (to_lower (trim value) === "")) [
  | inl e ↦ absurd (not_missing (sym (rw e refl) ∙ h))
  | inr e ↦ elim (Bool-cases (includes_text "://" (to_lower (trim value)))) [
    | inl f ↦ absurd (not_invalid (sym (rw (e, f) refl) ∙ h))
    | inr f ↦
        check_name-IsHost p stable (drop_trailing b'.' (to_lower (trim value))) name
          (sym (rw (e, f) refl) ∙ h)
  ]
]
  where
    not_missing : missing ≡ host name → ⊥
    not_missing e = cc

    not_invalid : invalid ≡ host name → ⊥
    not_invalid e = cc

pub dotted-filled : (name : String) → includes_text "." name ≡ true → (name === "") ≡ false
unfolding includes_text
dotted-filled name h = elim (Bool-cases (name === "")) [
  | inl e ↦ absurd (no_dot (sym (ap (includes_text ".") ((eq_iff name "").0 e)) ∙ h))
  | inr e ↦ e
]
  where
    no_dot : includes_text "." "" ≡ true → ⊥
    no_dot e = cc

pub fits : (n : ℕ) → n ≤ 253 → ltb 253 n ≡ false
fits n h = ground arith

check_domain_like_fixed :
    (p : Platform) (name : String)
    → IsHost p name
    → chars name ≤ 253
    → check_domain_like p name ≡ host name
unfolding check_domain_like check_name checked_host
check_domain_like_fixed p name i small =
    let ok_chars : all_chars is_host_char name ≡ true = all_labels-chars name i.labelled in
    rw
      (
        trim_id name (host_chars-space name ok_chars),
        i.low,
        dotted-filled name i.dotted,
        all_chars-includes_text is_host_char ":" "//" name ok_chars refl,
        all_labels-drop name i.labelled,
        dotted-filled name i.dotted,
        fits (chars name) small,
        all_chars-includes_text is_host_char "/" "" name ok_chars refl,
        i.parsed,
        i.low,
        i.dotted,
        i.labelled,
      )
      refl

-- A name that the issuer normalises, and that has at most 253 characters afterwards, is left by the
-- verifier as it is; this needs that the URL parser keeps the hosts of http URLs.
pub normalize_verify_domain-normalize_domain_like :
    (p : Platform)
    → HostIsStable p
    → (value field name : String) → normalize_domain_like p value field ≡ ok name
    → chars name ≤ 253
    → (field' : String) → normalize_verify_domain p name field' ≡ ok name
unfolding normalize_domain_like normalize_verify_domain
normalize_verify_domain-normalize_domain_like p stable value field name h small field' =
    rw
      (check_domain_like_fixed p name
        (check_domain_like-IsHost p stable value name (found (check_domain_like p value) h)) small)
      refl
  where
    found : (r : DomainResult) → or_refuse field r ≡ ok name → r ≡ host name
    found missing e = cc
    found invalid e = cc
    found (host n) e = ground arith

found_host : (r : DomainResult) (name field : String) → or_refuse field r ≡ ok name → r ≡ host name
found_host missing name field e = cc
found_host invalid name field e = cc
found_host (host n) name field e = ground arith

pub normalize_domain_like-IsHost :
    (p : Platform)
    → HostIsStable p
    → (value field name : String) → normalize_domain_like p value field ≡ ok name
    → IsHost p name
unfolding normalize_domain_like
normalize_domain_like-IsHost p stable value field name h =
    check_domain_like-IsHost p stable value name
      (found_host (check_domain_like p value) name field h)
