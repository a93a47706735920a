-- ===== src/SiteConfig/Formed.antt =====
-- What the validator knows of a config that it accepts.
use blackcat_darkmesh_gatewa.Text.{trim, starts_with}
use blackcat_darkmesh_gatewa.Text.Spaces.{trim-trim}
use blackcat_darkmesh_gatewa.Json.{
  Json, null, undefined, bool, num, text, arr, obj, non_plain, whole, negative, not_finite,
}
use blackcat_darkmesh_gatewa.RouteAssertions.Outcome.{Platform}
use blackcat_darkmesh_gatewa.RouteAssertions.Domains.Fixed.{HostIsStable}
use blackcat_darkmesh_gatewa.SiteConfig.{
  DmConfigErrorCode, config_invalid_field, ConfigResult, ok, fail, found_then, ok_inj, DmConfigV1,
}
use blackcat_darkmesh_gatewa.SiteConfig.Validator.{
  is_process_id, is_sig, filled_string, read_required_string, read_required_integer, accept,
  read_domain, read_process, read_entry_path, end_after, read_valid_to, is_sig_alg, read_sig_alg,
  read_sig, filled_kid, read_kid,
}
use blackcat_darkmesh_gatewa.SiteConfig.Domain.{IsCanonical, canonicalize_domain-IsCanonical}
use blackcat_darkmesh_gatewa.Base.{
  ℕ, zero, suc, ◌≤◌, ◌<◌, ◌≡◌, refl, sym, ◌∙◌, inl, inr, String, Bool, true, false, Option, none,
  some, ◌===◌, arith, leb, Bool-cases,
}

-- A text that is not empty and has no white space around it.
pub record IsField (s : String) : Type 0 where
  pub trimmed : trim s ≡ s
  pub filled : (s === "") ≡ false

-- A field that passes a test of its own, too.
pub record IsTested (test : String → Bool) (s : String) : Type 0 where
  pub form : IsField s
  pub passes : test s ≡ true

abbrev pub IsKid : Option String → Type 0
IsKid none = Unit {0}
IsKid (some kid) = IsField kid

pub record IsFormed (p : Platform) (c : DmConfigV1) : Type 0 where
  pub domain : IsCanonical p c.domain
  pub site_process : IsTested is_process_id c.site_process
  pub write_process : IsTested is_process_id c.write_process
  pub entry_path : IsTested (starts_with "/") c.entry_path
  pub positive : 1 ≤ c.valid_from
  pub lasting : c.valid_from < c.valid_to
  pub sig_alg : IsTested is_sig_alg c.sig_alg
  pub sig : IsTested is_sig c.sig
  pub owner : IsField c.owner
  pub nonce : IsField c.nonce
  pub kid : IsKid c.kid

filled_string-IsField : (name r s : String) → filled_string name (trim r) ≡ ok s → IsField s
filled_string-IsField name r s h = elim (Bool-cases (trim r === "")) [
  | inl e ↦ absurd (refuses (sym (rw e refl) ∙ h))
  | inr e ↦
      let same : trim r ≡ s = ok_inj (trim r) s (sym (rw e refl) ∙ h) in
      rw (← same) (record { trimmed = trim-trim r; filled = e })
]
  where
    refuses : filled_string name "" ≡ ok s → ⊥
    refuses e = cc

pub read_required_string-IsField :
    (name : String) (v : Json) (s : String) → read_required_string name v ≡ ok s → IsField s
unfolding read_required_string
read_required_string-IsField name (text r) s h = filled_string-IsField name r s h
read_required_string-IsField name null s h = cc
read_required_string-IsField name undefined s h = cc
read_required_string-IsField name (bool b) s h = cc
read_required_string-IsField name (num n) s h = cc
read_required_string-IsField name (arr items) s h = cc
read_required_string-IsField name (obj fields) s h = cc
read_required_string-IsField name (non_plain fields) s h = cc

accepted :
    (code : DmConfigErrorCode) (name : String) (test : String → Bool) (r s : String)
    → accept code name test r ≡ ok s
    → (r ≡ s) × (test r ≡ true)
accepted code name test r s h = elim (Bool-cases (test r)) [
  | inl e ↦ (ok_inj r s (sym (rw e refl) ∙ h), e)
  | inr e ↦ absurd (refuses (sym (rw e refl) ∙ h))
]
  where
    refuses : ◌≡◌ {A = ConfigResult String} (fail code (some name)) (ok s) → ⊥
    refuses e = cc

tested :
    (code : DmConfigErrorCode) (name field_name : String) (test : String → Bool) (v : Json)
    (r s : String)
    → read_required_string name v ≡ ok r
    → accept code field_name test r ≡ ok s
    → IsTested test s
tested code name field_name test v r s read h =
    let (same, passes) = accepted code field_name test r s h in
    rw (← same) (record { form = read_required_string-IsField name v r read; passes = passes })

pub read_process-IsTested :
    (name : String) (v : Json) (s : String) → read_process name v ≡ ok s → IsTested is_process_id s
unfolding read_process
read_process-IsTested name v s h =
    found_then (read_required_string name v) _ s h
      λ r read h. tested config_invalid_field name name is_process_id v r s read h

pub read_entry_path-IsTested :
    (v : Json) (s : String) → read_entry_path v ≡ ok s → IsTested (starts_with "/") s
unfolding read_entry_path
read_entry_path-IsTested v s h =
    found_then (read_required_string "entryPath" v) _ s h
      λ r read h. tested config_invalid_field "entryPath" "entryPath" (starts_with "/") v r s read h

pub read_sig_alg-IsTested : (v : Json) (s : String) → read_sig_alg v ≡ ok s → IsTested is_sig_alg s
unfolding read_sig_alg
read_sig_alg-IsTested v s h =
    found_then (read_required_string "sigAlg" v) _ s h
      λ r read h. tested config_invalid_field "sigAlg" "sigAlg" is_sig_alg v r s read h

pub read_sig-IsTested : (v : Json) (s : String) → read_sig v ≡ ok s → IsTested is_sig s
unfolding read_sig
read_sig-IsTested v s h =
    found_then (read_required_string "sig" v) _ s h
      λ r read h. tested config_invalid_field "sig" "sig" is_sig v r s read h

pub read_domain-IsCanonical :
    (p : Platform)
    → HostIsStable p
    → (v : Json) (s : String) → read_domain p v ≡ ok s
    → IsCanonical p s
unfolding read_domain
read_domain-IsCanonical p stable v s h =
    found_then (read_required_string "domain" v) _ s h
      λ r read h. canonicalize_domain-IsCanonical p stable r s h

pub read_required_integer-positive :
    (name : String) (v : Json) (n : ℕ) → read_required_integer name v ≡ ok n → 1 ≤ n
unfolding read_required_integer
read_required_integer-positive name (num (whole zero)) n h = cc
read_required_integer-positive name (num (whole (suc k))) n h =
    let same : suc k ≡ n = ok_inj (suc k) n h in omega arith
read_required_integer-positive name (num (negative k)) n h = cc
read_required_integer-positive name (num not_finite) n h = cc
read_required_integer-positive name (text r) n h = cc
read_required_integer-positive name null n h = cc
read_required_integer-positive name undefined n h = cc
read_required_integer-positive name (bool b) n h = cc
read_required_integer-positive name (arr items) n h = cc
read_required_integer-positive name (obj fields) n h = cc
read_required_integer-positive name (non_plain fields) n h = cc

pub read_valid_to-later : (start : ℕ) (v : Json) (n : ℕ) → read_valid_to start v ≡ ok n → start < n
unfolding read_valid_to
read_valid_to-later start v n h =
    found_then (read_required_integer "validTo" v) _ n h λ k read h. later k h
  where
    later : (k : ℕ) → end_after start k ≡ ok n → start < n
    later k h = elim (Bool-cases (leb k start)) [
      | inl e ↦ absurd (refuses k e h)
      | inr e ↦ let same : k ≡ n = ok_inj k n (sym (rw e refl) ∙ h) in ground arith
    ]
      where
        refuses : (k : ℕ) → leb k start ≡ true → end_after start k ≡ ok n → ⊥
        refuses k e h = ground arith

pub read_kid-IsKid : (v : Json) (o : Option String) → read_kid v ≡ ok o → IsKid o
unfolding read_kid
read_kid-IsKid undefined o h = rw (← ok_inj none o h) tt
read_kid-IsKid (text r) o h = elim (Bool-cases (trim r === "")) [
  | inl e ↦ absurd (refuses (sym (rw e refl) ∙ h))
  | inr e ↦
      rw (← ok_inj (some (trim r)) o (sym (rw e refl) ∙ h))
        (record { trimmed = trim-trim r; filled = e })
]
  where
    refuses : filled_kid "" ≡ ok o → ⊥
    refuses e = cc
read_kid-IsKid null o h = cc
read_kid-IsKid (bool b) o h = cc
read_kid-IsKid (num n) o h = cc
read_kid-IsKid (arr items) o h = cc
read_kid-IsKid (obj fields) o h = cc
read_kid-IsKid (non_plain fields) o h = cc
