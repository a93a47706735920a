-- ===== src/Integrity/Verifier/Tokens.antt =====
-- The loop of normalizeIntegrityToken: it ends, and a token in normal form stays as it is.
use blackcat_darkmesh_gatewa.Integrity.Verifier.{
  after_separator, strip_sha256, strip_0x, strip_round, strip_prefixes, lowered,
  normalize_integrity_token,
}
use blackcat_darkmesh_gatewa.Text.{trim, to_lower, strip_prefix_ignore_case, has_space, chars}
use blackcat_darkmesh_gatewa.Text.Letters.{
  lower_char-lower_char, to_lower-to_lower, strip_prefix-to_lower, chars-strip_prefix,
}
use blackcat_darkmesh_gatewa.Text.Spaces.{chars-trim-le, trim_id}
use blackcat_darkmesh_gatewa.Base.{
  ℕ, zero, suc, ◌<◌, ◌≡◌, refl, ◌∙◌, ◌⊎◌, inl, inr, String, true, false, Option, none, some, ◌===◌,
  arith, option_map, Bool-cases, Option-cases,
}

chars-after_separator :
    (o : Option String) (s : String)
    → after_separator o ≡ some s
    → (t : String) × (o ≡ some t) × (chars s < chars t)
unfolding after_separator chars
chars-after_separator none s h = cc
chars-after_separator (some String.[]) s h = cc
chars-after_separator (some (String.◌∷◌ c t)) s h = (String.◌∷◌ c t, refl, ground arith)

chars-strip_sha256 : (v s : String) → strip_sha256 v ≡ some s → chars s < chars v
unfolding strip_sha256
chars-strip_sha256 v s h =
    let (t, e, lt) = chars-after_separator (strip_prefix_ignore_case "sha256" v) s h in
    omega (arith, chars-strip_prefix "sha256" v t e)

chars-strip_0x : (v s : String) → strip_0x v ≡ some s → chars s < chars v
unfolding strip_0x chars
chars-strip_0x v s h = omega (arith, chars-strip_prefix "0x" v s h)

-- A round leaves a text without prefixes alone, and shortens any other.
strip_round-cases :
    (v : String)
    → ((strip_round v ≡ (v, false)) × (strip_sha256 v ≡ none) × (strip_0x v ≡ none))
      ⊎ (((strip_round v).1 ≡ true) × (chars (strip_round v).0 < chars v))
unfolding strip_round
strip_round-cases v = elim (Option-cases (strip_sha256 v)) [
  | inl no_sha ↦ elim (Option-cases (strip_0x v)) [
    | inl no_hex ↦ inl (rw (no_sha, no_hex) refl, no_sha, no_hex)
    | inr (s, hex) ↦ inr (
      rw (no_sha, hex) refl,
      rw (no_sha, hex) (omega (arith, chars-trim-le s, chars-strip_0x v s hex)),
    )
  ]
  | inr (s, sha) ↦ elim (Option-cases (strip_0x (trim s))) [
    | inl no_hex ↦ inr (
      rw (sha, no_hex) refl,
      rw (sha, no_hex) (omega (arith, chars-trim-le s, chars-strip_sha256 v s sha)),
    )
    | inr (t, hex) ↦ inr (
      rw (sha, hex) refl,
      rw (sha, hex)
          (omega (
            arith,
            chars-trim-le s,
            chars-strip_sha256 v s sha,
            chars-trim-le t,
            chars-strip_0x (trim s) t hex,
          )),
    )
  ]
]

-- The loop that strips prefixes ends: with more fuel than the text has characters it returns a text,
-- and neither of the two prefixes is left before that text.
pub strip_prefixes_terminates :
    (fuel : ℕ) (value : String)
    → chars value < fuel
    → (rest : String) × (strip_prefixes fuel value ≡ some rest)
      × (strip_sha256 rest ≡ none)
      × (strip_0x rest ≡ none)
unfolding strip_prefixes
strip_prefixes_terminates zero v h = elim h [ ]
strip_prefixes_terminates (suc fuel) v h = elim (strip_round-cases v) [
  | inl (same, no_sha, no_hex) ↦ (v, rw same refl, no_sha, no_hex)
  | inr (more, shorter) ↦ rw more (strip_prefixes_terminates fuel (strip_round v).0 (omega arith))
]

pub record IsToken (v : String) : Type 0 where
  pub low : to_lower v ≡ v
  pub filled : (v === "") ≡ false
  pub spaceless : has_space v ≡ false
  pub no_sha : strip_sha256 v ≡ none
  pub no_hex : strip_0x v ≡ none

after_separator-to_lower :
    (o : Option String) → after_separator o ≡ none → after_separator (option_map to_lower o) ≡ none
unfolding after_separator to_lower
after_separator-to_lower none h = refl
after_separator-to_lower (some String.[]) h = refl
after_separator-to_lower (some (String.◌∷◌ c s)) h = rw (lower_char-lower_char c) (ground arith)

strip_sha256-to_lower : (s : String) → strip_sha256 s ≡ none → strip_sha256 (to_lower s) ≡ none
unfolding strip_sha256
strip_sha256-to_lower s h =
    rw (strip_prefix-to_lower "sha256" s)
      (after_separator-to_lower (strip_prefix_ignore_case "sha256" s) h)

strip_0x-to_lower : (s : String) → strip_0x s ≡ none → strip_0x (to_lower s) ≡ none
unfolding strip_0x
strip_0x-to_lower s h = rw (strip_prefix-to_lower "0x" s, h) refl

lowered-IsToken :
    (w v : String)
    → strip_sha256 w ≡ none
    → strip_0x w ≡ none
    → lowered (some w) ≡ some v
    → IsToken v
lowered-IsToken w v hs hx h = elim (Bool-cases (to_lower w === "")) [
  | inl e ↦ absurd (ground arith)
  | inr e ↦ elim (Bool-cases (has_space (to_lower w))) [
    | inl sp ↦ absurd (ground arith)
    | inr sp ↦
        let same : to_lower w ≡ v = ground arith in
        rw (← same) (record {
          low = to_lower-to_lower w;
          filled = e;
          spaceless = sp;
          no_sha = strip_sha256-to_lower w hs;
          no_hex = strip_0x-to_lower w hx;
        })
  ]
]

pub normalize-IsToken :
    (input : Option String) (v : String) → normalize_integrity_token input ≡ some v → IsToken v
unfolding normalize_integrity_token
normalize-IsToken none v h = cc
normalize-IsToken (some input) v h = elim (Bool-cases (trim input === "")) [
  | inl e ↦ absurd (ground arith)
  | inr e ↦
      let (w, stripped, hs, hx) =
        strip_prefixes_terminates (suc (chars (trim input))) (trim input) (omega arith) in
      lowered-IsToken w v hs hx ((rw (e, stripped) refl) ∙ h)
]

strip_round_fixed :
    (v : String) → strip_sha256 v ≡ none → strip_0x v ≡ none → strip_round v ≡ (v, false)
unfolding strip_round
strip_round_fixed v hs hx = rw (hs, hx) refl

pub normalize_fixed : (v : String) → IsToken v → normalize_integrity_token (some v) ≡ some v
unfolding normalize_integrity_token strip_prefixes
normalize_fixed v t =
    rw
      (
        trim_id v t.spaceless,
        t.filled,
        strip_round_fixed v t.no_sha t.no_hex,
        t.low,
        t.filled,
        t.spaceless,
      )
      refl

normalize_none : normalize_integrity_token none ≡ none
unfolding normalize_integrity_token
normalize_none = refl

-- Normalisation of a token is idempotent, for every input: what it returns is in normal form, and
-- what it refuses stays refused.
pub normalize-normalize :
    (input : Option String)
    → normalize_integrity_token (normalize_integrity_token input) ≡ normalize_integrity_token input
normalize-normalize input = elim (Option-cases (normalize_integrity_token input)) [
  | inl e ↦ rw e normalize_none
  | inr (v, e) ↦ rw e (normalize_fixed v (normalize-IsToken input v e))
]
