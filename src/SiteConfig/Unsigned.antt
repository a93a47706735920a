-- ===== src/SiteConfig/Unsigned.antt =====
-- What the verification of a config's signature does not depend on, and the check of the key identifier.
use blackcat_darkmesh_gatewa.Json.{Json}
use blackcat_darkmesh_gatewa.DnsTxt.{DmTxtEnvelope}
use blackcat_darkmesh_gatewa.RouteAssertions.Outcome.{Platform}
use blackcat_darkmesh_gatewa.RouteAssertions.Domains.Fixed.{HostIsStable}
use blackcat_darkmesh_gatewa.SiteConfig.{
  config_kid_mismatch, ok, fail, found_then, found_ok, DmConfigV1,
}
use blackcat_darkmesh_gatewa.SiteConfig.Validator.{
  validate_dm_config_json, kid_or_owner, validate_config_kid_against_txt,
}
use blackcat_darkmesh_gatewa.SiteConfig.Formed.{IsKid, IsFormed}
use blackcat_darkmesh_gatewa.SiteConfig.Accepted.{validate_dm_config_json-IsFormed}
use blackcat_darkmesh_gatewa.SiteConfig.Keys.{Bytes, Subtle, base64_url_to_bytes}
use blackcat_darkmesh_gatewa.SiteConfig.Signature.{
  DmConfigSignatureBlock, VerifyOptions, resolve_public_key, payload_text,
  build_dm1_signature_payload, truthy, supported_signature_verifier, supported, now_of,
  check_window, known_key, known_signature, verify_dm_config_signature, block_of,
  verify_validated_dm_config_signature,
}
use blackcat_darkmesh_gatewa.Base.{
  ℕ, ◌≤◌, ◌≡◌, refl, sym, ◌∙◌, ◌≢◌, ◌⊎◌, inl, inr, String, true, false, Option, none, some, ◌===◌,
  eq_iff, arith, ltb, or_else, Bool-cases,
}

-- The config with another target: fields that the signed payload leaves out.
abbrev pub retargeted : DmConfigV1 → String → String → String → Option String → DmConfigV1
retargeted c site_process write_process entry_path kid = record c {
  site_process = site_process;
  write_process = write_process;
  entry_path = entry_path;
  kid = kid;
}

-- A config whose signature is accepted is accepted under the same signature with any other site
-- process, write process, entry path and key identifier in it.
pub verify_validated_dm_config_signature-retargeted :
    (p : Subtle) (c : DmConfigV1) (options : VerifyOptions)
    → verify_validated_dm_config_signature p c options ≡ ok c
    → (site_process write_process entry_path : String) (kid : Option String)
    → verify_validated_dm_config_signature p
        (retargeted c site_process write_process entry_path kid)
        options
      ≡ ok (retargeted c site_process write_process entry_path kid)
unfolding verify_validated_dm_config_signature
verify_validated_dm_config_signature-retargeted p c options h site_process write_process entry_path
      kid =
    found_then (verify_dm_config_signature p (block_of c) options) _ c h λ payload accepted _.
      found_ok (verify_dm_config_signature p (block_of c) options) payload _ _ accepted refl

in_window : (now start stop : ℕ) → start ≤ now → now ≤ stop → check_window now start stop ≡ ok tt
unfolding check_window
in_window now start stop h k =
    let early : ltb now start ≡ false = ground arith in
    let late : ltb stop now ≡ false = ground arith in rw (early, late) refl

inherited :
    (name : String)
    → (name ≡ "constructor") ⊎ (name ≡ "toString")
    → supported_signature_verifier name ≡ some truthy
unfolding supported_signature_verifier
inherited name (inl e) = rw e refl
inherited name (inr e) = rw e refl

-- A block whose algorithm is `constructor` or `toString` is accepted in its time window whatever
-- the signature, if the domain, owner and nonce are filled and the key and the signature decode.
pub verify_dm_config_signature-inherited :
    (p : Subtle) (config : DmConfigSignatureBlock) (options : VerifyOptions) (key signature : Bytes)
    → (config.sig_alg ≡ "constructor") ⊎ (config.sig_alg ≡ "toString")
    → config.valid_from ≤ now_of options
    → now_of options ≤ config.valid_to
    → (config.domain === "") ≡ false
    → (config.owner === "") ≡ false
    → (config.nonce === "") ≡ false
    → resolve_public_key p config options ≡ some key
    → base64_url_to_bytes p config.sig ≡ some signature
    → verify_dm_config_signature p config options ≡ ok (payload_text config)
unfolding verify_dm_config_signature
verify_dm_config_signature-inherited p config options key signature alg start stop d o n k g =
    found_ok (supported (supported_signature_verifier config.sig_alg)) truthy _ _
      (rw (inherited config.sig_alg alg) refl)
      (found_ok (check_window (now_of options) config.valid_from config.valid_to) tt _ _
        (in_window (now_of options) config.valid_from config.valid_to start stop)
        (found_ok (build_dm1_signature_payload config) (payload_text config) _ _
          (filled config d o n)
          (found_ok (known_key (resolve_public_key p config options)) key _ _ (rw k refl) (
            found_ok (known_signature (base64_url_to_bytes p config.sig)) signature _ _ (rw g refl)
              refl))))
  where
    filled :
        (b : DmConfigSignatureBlock)
        → (b.domain === "") ≡ false
        → (b.owner === "") ≡ false
        → (b.nonce === "") ≡ false
        → build_dm1_signature_payload b ≡ ok (payload_text b)
    filled b d o n = rw (d, o, n) refl

-- The kid, or without one the owner, is never empty in an accepted config.
candidate-filled : (p : Platform) (c : DmConfigV1) → IsFormed p c → (kid_or_owner c === "") ≡ false
candidate-filled p c i = filled c.kid i.kid
  where
    filled : (o : Option String) → IsKid o → (or_else o c.owner === "") ≡ false
    filled none k = i.owner.filled
    filled (some kid) k = k.filled

-- Where the URL parser keeps the hosts of http URLs, a config that the validator accepted is
-- bound to the TXT record exactly if its kid, or without one its owner, is the record's kid; else it
-- is refused as a mismatch.
pub validate_config_kid_against_txt-validated :
    (p : Platform)
    → HostIsStable p
    → (input : Json) (c : DmConfigV1) (txt_envelope : DmTxtEnvelope)
    → validate_dm_config_json p input ≡ ok c
    → ((kid_or_owner c ≡ txt_envelope.kid)
        × (validate_config_kid_against_txt c txt_envelope ≡ ok c))
      ⊎ ((kid_or_owner c ≢ txt_envelope.kid)
          × (validate_config_kid_against_txt c txt_envelope
              ≡ fail config_kid_mismatch (some "kid")))
unfolding validate_config_kid_against_txt
validate_config_kid_against_txt-validated p stable input c txt_envelope h =
    let filled = candidate-filled p c (validate_dm_config_json-IsFormed p stable input c h) in
    elim (Bool-cases (kid_or_owner c === txt_envelope.kid)) [
      | inl e ↦ inl ((eq_iff (kid_or_owner c) txt_envelope.kid).0 e, rw (filled, e) refl)
      | inr e ↦ inr (other e, rw (filled, e) refl)
    ]
  where
    other : (kid_or_owner c === txt_envelope.kid) ≡ false → kid_or_owner c ≢ txt_envelope.kid
    other e same = clash (sym ((eq_iff (kid_or_owner c) txt_envelope.kid).1 same) ∙ e)
      where
        clash : true ≡ false → ⊥
        clash e = cc
