-- ===== src/SiteConfig/Domain.antt =====
-- The host that canonicalizeDomain returns, and that it returns it for itself.
use Prim.Native.String.{◌++◌ as ◌+++◌}
use blackcat_darkmesh_gatewa.Text.{trim, to_lower, all_chars, includes_text, drop_trailing, chars}
use blackcat_darkmesh_gatewa.Text.Spaces.{trim_id}
use blackcat_darkmesh_gatewa.Json.{text}
use blackcat_darkmesh_gatewa.RouteAssertions.Outcome.{Platform}
use blackcat_darkmesh_gatewa.RouteAssertions.Domains.{
  DomainResult, missing, invalid, host, checked_host,
}
use blackcat_darkmesh_gatewa.RouteAssertions.Domains.Hosts.{
  is_host_char, all_labels-chars, all_labels-drop, host_chars-space, all_chars-includes_text,
}
use blackcat_darkmesh_gatewa.RouteAssertions.Domains.Fixed.{
  HostIsStable, IsHost, checked_host-host, dotted-filled, fits,
}
use blackcat_darkmesh_gatewa.SiteConfig.{ok}
use blackcat_darkmesh_gatewa.SiteConfig.Validator.{
  fqdn, without_trailing_dot, canonical_host_of, domain_result, canonicalize_domain,
}
use blackcat_darkmesh_gatewa.Base.{
  ℕ, ◌≤◌, ◌≡◌, refl, sym, ap, ◌∙◌, inl, inr, String, Bool, true, false, ◌||◌, ◌===◌, arith, ltb,
  if◌then◌else◌, Option-cases,
}

-- A host of labels, by the URL parser's word, that is short enough.
pub record IsCanonical (p : Platform) (name : String) : Type 0 where
  pub labelled : IsHost p name
  pub short : chars name ≤ 253

no_host : (name : String) → invalid ≡ host name → ⊥
no_host name e = cc

if_host :
    (test : Bool) (r : DomainResult) (name : String)
    → (if test then invalid else r) ≡ host name
    → (test ≡ false) × (r ≡ host name)
if_host true r name h = absurd (no_host name h)
if_host false r name h = (refl, h)

or_short : (a : Bool) (n : ℕ) → (a || ltb 253 n) ≡ false → n ≤ 253
or_short a n h = ground arith

module _ (p : Platform) (stable : HostIsStable p) where
  fqdn-IsCanonical :
      (written name : String)
      → fqdn (p.hostname ("http://" +++ written)) ≡ host name
      → IsCanonical p name
  fqdn-IsCanonical written name h = elim (Option-cases (p.hostname ("http://" +++ written))) [
    | inl e ↦ absurd (no_host name (ap fqdn (sym e) ∙ h))
    | inr (s, e) ↦
        let (low, parsed) = stable written s e in
        let (tests, rest) =
          if_host ((to_lower s === "") || ltb 253 (chars (to_lower s))) (checked_host (to_lower s))
            name (ap fqdn (sym e) ∙ h) in
        let (same, dotted, labelled) = checked_host-host (to_lower s) name rest in
        let whole : s ≡ name = sym low ∙ same in
        record {
          labelled = record {
            parsed = rw (← whole) parsed;
            low = rw (← whole) low;
            dotted = rw (← same) dotted;
            labelled = rw (← same) labelled;
          };
          short = rw (← same) (or_short (to_lower s === "") (chars (to_lower s)) tests);
        }
  ]

  canonical_host_of-IsCanonical :
      (input name : String) → canonical_host_of p input ≡ host name → IsCanonical p name
  unfolding canonical_host_of without_trailing_dot
  canonical_host_of-IsCanonical input name h =
      let trimmed = to_lower (trim input) in
      let bare = drop_trailing b'.' trimmed in
      let (_, h) = if_host (trimmed === "") _ name h in
      let (_, h) =
        if_host
          (includes_text "://" trimmed
            || includes_text "/" trimmed
            || includes_text "?" trimmed
            || includes_text "#" trimmed)
          _ name h in
      let (_, h) = if_host (bare === "") _ name h in fqdn-IsCanonical bare name h

  pub canonicalize_domain-IsCanonical :
      (input name : String) → canonicalize_domain p (text input) ≡ ok name → IsCanonical p name
  unfolding canonicalize_domain
  canonicalize_domain-IsCanonical input name h =
      canonical_host_of-IsCanonical input name (found (canonical_host_of p input) h)
    where
      found : (r : DomainResult) → domain_result r ≡ ok name → r ≡ host name
      found missing e = cc
      found invalid e = cc
      found (host n) e = ground arith

pub canonicalize_domain_fixed :
    (p : Platform) (name : String)
    → IsCanonical p name
    → canonicalize_domain p (text name) ≡ ok name
unfolding canonicalize_domain canonical_host_of without_trailing_dot checked_host
canonicalize_domain_fixed p name i =
    let host = i.labelled in
    let ok_chars : all_chars is_host_char name ≡ true = all_labels-chars name host.labelled in
    rw
      (
        trim_id name (host_chars-space name ok_chars),
        host.low,
        dotted-filled name host.dotted,
        all_chars-includes_text is_host_char ":" "//" name ok_chars refl,
        all_chars-includes_text is_host_char "/" "" name ok_chars refl,
        all_chars-includes_text is_host_char "?" "" name ok_chars refl,
        all_chars-includes_text is_host_char "#" "" name ok_chars refl,
        all_labels-drop name host.labelled,
        dotted-filled name host.dotted,
        host.parsed,
        host.low,
        dotted-filled name host.dotted,
        fits (chars name) i.short,
        host.dotted,
        host.labelled,
      )
      refl
