-- ===== src/DnsTxt/Accepted.antt =====
-- From an accepted TXT record back to its text, workers/async-worker/src/dnsTxtParser.ts.
use blackcat_darkmesh_gatewa.DnsTxt.{
  ok, DmTxtEnvelope, parse_pairs, is_missing, ParsedTxtPairs, required, parse_dm_txt_payload,
  is_arweave_id, parse_and_validate_dm_txt_envelope,
}
use blackcat_darkmesh_gatewa.DnsTxt.Sound.{
  Says, Result-cases, parse_pairs-ok, validate_dm_txt_envelope-ok,
}
use blackcat_darkmesh_gatewa.Text.{trim, split, leading_digits}
use blackcat_darkmesh_gatewa.Base.{
  ◌≤◌, ◌≡◌, refl, sym, ap, ◌∙◌, inl, inr, String, true, false, Option, none, some, ◌===◌, arith,
  or_else, Bool-cases, Any,
}
use blackcat_darkmesh_gatewa.JsMap.{JsMap, get}

present : (o : Option String) → is_missing o ≡ false → o ≡ some (or_else o "")
present none h = cc
present (some value) h = refl

required-ok :
    (pairs : JsMap String) (parsed : ParsedTxtPairs)
    → required (ok pairs) ≡ ok parsed
    → (get "v" pairs ≡ some parsed.v)
      × (get "cfg" pairs ≡ some parsed.cfg)
      × (get "kid" pairs ≡ some parsed.kid)
      × (get "ttl" pairs ≡ some parsed.ttl)
required-ok pairs parsed done = ground (
  arith,
  done,
  present (get "v" pairs),
  present (get "cfg" pairs),
  present (get "kid" pairs),
  present (get "ttl" pairs),
)

parsed-ok :
    (raw : String) (parsed : ParsedTxtPairs)
    → parse_dm_txt_payload (some raw) ≡ ok parsed
    → (pairs : JsMap String) × (parse_pairs (trim raw) ≡ ok pairs)
      × (required (ok pairs) ≡ ok parsed)
unfolding parse_dm_txt_payload
parsed-ok raw parsed done = elim (Bool-cases (trim raw === "")) [
  | inl blank ↦ ground (arith, blank, done)
  | inr filled ↦ elim (Result-cases (parse_pairs (trim raw))) [
    | inr (code, e) ↦ ground (arith, filled, e, done)
    | inl (pairs, e) ↦ (pairs, e, ground (arith, filled, e, done))
  ]
]

-- What an accepted TXT record says. The version, both identifiers and the time to live are each what a segment
-- of the text says; the identifiers have the form of Arweave's, the time to live is from a minute to a day.
pub parse_and_validate_dm_txt_envelope-ok :
    (raw : String) (e : DmTxtEnvelope)
    → parse_and_validate_dm_txt_envelope (some raw) ≡ ok e
    → let segments = split b';' (trim raw) in
      Any (Says "v" "dm1") segments
      × Any (Says "cfg" e.cfg) segments
      × Any (Says "kid" e.kid) segments
      × ((ttl : String) × Any (Says "ttl" ttl) segments × (leading_digits none ttl ≡ some e.ttl))
      × (is_arweave_id e.cfg ≡ true)
      × (is_arweave_id e.kid ≡ true)
      × (60 ≤ e.ttl)
      × (e.ttl ≤ 86400)
unfolding parse_and_validate_dm_txt_envelope
parse_and_validate_dm_txt_envelope-ok raw e done =
    elim (Result-cases (parse_dm_txt_payload (some raw))) [
      | inr (code, p) ↦ ground (arith, p, done)
      | inl (parsed, p) ↦
          let (pairs, read, need) = parsed-ok raw parsed p in
          let (v, cfg, kid, ttl) = required-ok pairs parsed need in
          let (unique, count, from) = parse_pairs-ok (trim raw) pairs read in
          let valid = validate_dm_txt_envelope-ok parsed e (ground (arith, p, done)) in
          (
            from "v" "dm1" (v ∙ ap some valid.0),
            from "cfg" e.cfg (cfg ∙ ap some (sym valid.1)),
            from "kid" e.kid (kid ∙ ap some (sym valid.3)),
            (parsed.ttl, from "ttl" parsed.ttl ttl, valid.6),
            valid.2,
            valid.4,
            valid.7,
            valid.8,
          )
    ]
