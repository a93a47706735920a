-- ===== src/DomainMap/Store/Corrupted.antt =====
-- Records that cannot be read.
use Prim.Native.String.{◌++◌ as ◌+++◌}
use blackcat_darkmesh_gatewa.Json.{
  null, undefined, bool, num, text, arr, obj, non_plain, Fields, Json, whole, negative, not_finite,
}
use blackcat_darkmesh_gatewa.DomainMap.{
  DomainMapStatus, DomainMapEntry, empty_entry, normalize_domain_host,
}
use blackcat_darkmesh_gatewa.DomainMap.Store.{
  Stored, empty_text, no_json, stored, domain_map_key, member, corrupted,
  make_corrupted_domain_map_entry, version_of, parse_version, parse_domain_map_entry,
}
use blackcat_darkmesh_gatewa.DomainMap.Store.Operations.{get_domain_map_entry, filled_raw}
use blackcat_darkmesh_gatewa.Base.{ℕ, ◌≡◌, refl, sym, subst, String, Option, none, some}
use blackcat_darkmesh_gatewa.JsMap.{JsMap, get}

-- What is wrong with a stored text.
pub record Flaw : Type 0 where
  pub code : String
  pub message : String

abbrev pub no_record : Flaw
no_record = record { code = "invalid_shape"; message = "Persisted domain record is not an object." }

abbrev pub no_version : Flaw
no_version = record {
  code = "invalid_schema_version";
  message = "Persisted domain record has invalid schemaVersion.";
}

-- A version that is there and is no number, or a negative one.
abbrev pub version_flaw : Json → Option Flaw
version_flaw undefined = none
version_flaw (num (whole n)) = none
version_flaw other = some no_version

-- Why a stored text is not a record: no JSON, no object, or such a version.
abbrev pub flaw_of : Stored → Option Flaw
flaw_of empty_text = none
flaw_of no_json =
    some
      (record { code = "corrupt_json"; message = "Failed to parse persisted domain record JSON." })
flaw_of (stored (obj fields)) = version_flaw (member "schemaVersion" fields)
flaw_of (stored (non_plain fields)) = version_flaw (member "schemaVersion" fields)
flaw_of (stored null) = some no_record
flaw_of (stored undefined) = some no_record
flaw_of (stored (bool b)) = some no_record
flaw_of (stored (num n)) = some no_record
flaw_of (stored (text s)) = some no_record
flaw_of (stored (arr items)) = some no_record

-- The entry that stands for an unreadable record serves nothing and says why.
pub record Flawed (flaw : Flaw) (clock : ℕ) (host : String) (entry : DomainMapEntry) : Type 0 where
  pub named : entry.host ≡ host
  pub off : entry.status ≡ DomainMapStatus.invalid
  pub untargeted : entry.resolved_target ≡ none
  pub said :
      entry.last_error ≡ some (record { code = flaw.code; message = flaw.message; at = clock })
  pub coded : entry.last_error_code ≡ some flaw.code
  pub timed : entry.last_error_at ≡ some clock
  pub untried : entry.refresh_attempts ≡ 0

version_flaw-none :
    (version : Json) (flaw : Flaw)
    → version_flaw version ≡ some flaw
    → (version_of version ≡ none) × (no_version ≡ flaw)
version_flaw-none undefined flaw h = cc
version_flaw-none (num (whole n)) flaw h = cc
version_flaw-none (num (negative n)) flaw h = (refl, cc)
version_flaw-none (num not_finite) flaw h = (refl, cc)
version_flaw-none null flaw h = (refl, cc)
version_flaw-none (bool b) flaw h = (refl, cc)
version_flaw-none (text s) flaw h = (refl, cc)
version_flaw-none (arr items) flaw h = (refl, cc)
version_flaw-none (obj fields) flaw h = (refl, cc)
version_flaw-none (non_plain fields) flaw h = (refl, cc)

module _ (host n : String) (clock : ℕ) (named : normalize_domain_host host ≡ some n) where
  -- What a read of a flawed text makes of it.
  abbrev Found : Option DomainMapEntry → Flaw → Type 0
  Found made flaw = (entry : DomainMapEntry) × (made ≡ some entry) × Flawed flaw clock n entry

  make_corrupted-Flawed :
      (flaw : Flaw)
      → Found (make_corrupted_domain_map_entry (some host) clock flaw.code flaw.message) flaw
  unfolding make_corrupted_domain_map_entry
  make_corrupted-Flawed flaw = (
    corrupted flaw.code flaw.message clock (empty_entry n clock),
    rw named refl,
    record {
      named = refl;
      off = refl;
      untargeted = refl;
      said = refl;
      coded = refl;
      timed = refl;
      untried = refl;
    },
  )

  -- The same, for a flaw that is known by an equation.
  make_corrupted_as :
      (found flaw : Flaw)
      → found ≡ flaw
      → Found (make_corrupted_domain_map_entry (some host) clock found.code found.message) flaw
  make_corrupted_as found flaw same =
      subst (Found (make_corrupted_domain_map_entry (some host) clock found.code found.message))
        same (make_corrupted-Flawed found)

  parse_version-Flawed :
      (version : Json) (fields : Fields) (flaw : Flaw)
      → version_flaw version ≡ some flaw
      → Found (parse_version (version_of version) fields (some host) clock) flaw
  unfolding parse_version
  parse_version-Flawed version fields flaw h =
      let (none_found, same) = version_flaw-none version flaw h in
      subst (λ o. Found (parse_version o fields (some host) clock) flaw) (sym none_found)
        (make_corrupted_as no_version flaw same)

  some_flaw : (found flaw : Flaw) → ◌≡◌ {A = Option Flaw} (some found) (some flaw) → found ≡ flaw
  some_flaw found flaw h = cc

  parse-Flawed :
      (raw : Stored) (flaw : Flaw)
      → flaw_of raw ≡ some flaw
      → Found (parse_domain_map_entry raw (some host) clock) flaw
  unfolding parse_domain_map_entry
  parse-Flawed empty_text flaw h = cc
  parse-Flawed (stored (obj fields)) flaw h =
      parse_version-Flawed (member "schemaVersion" fields) fields flaw h
  parse-Flawed (stored (non_plain fields)) flaw h =
      parse_version-Flawed (member "schemaVersion" fields) fields flaw h
  parse-Flawed no_json flaw h = make_corrupted_as _ flaw (some_flaw _ flaw h)
  parse-Flawed (stored null) flaw h = make_corrupted_as no_record flaw (some_flaw _ flaw h)
  parse-Flawed (stored undefined) flaw h = make_corrupted_as no_record flaw (some_flaw _ flaw h)
  parse-Flawed (stored (bool b)) flaw h = make_corrupted_as no_record flaw (some_flaw _ flaw h)
  parse-Flawed (stored (num x)) flaw h = make_corrupted_as no_record flaw (some_flaw _ flaw h)
  parse-Flawed (stored (text s)) flaw h = make_corrupted_as no_record flaw (some_flaw _ flaw h)
  parse-Flawed (stored (arr items)) flaw h = make_corrupted_as no_record flaw (some_flaw _ flaw h)

filled_flaw :
    (raw : Stored) (flaw : Flaw) → flaw_of raw ≡ some flaw → filled_raw (some raw) ≡ some raw
filled_flaw empty_text flaw h = cc
filled_flaw no_json flaw h = refl
filled_flaw (stored x) flaw h = refl

domain_map_key-named :
    (host n : String)
    → normalize_domain_host host ≡ some n
    → domain_map_key host ≡ some ("domain:" +++ n)
unfolding domain_map_key
domain_map_key-named host n named = rw named refl

-- A persisted text that is no JSON, no object, or has a version that is no number or a negative one never
-- makes a read of its host fail: the read answers an entry for that host that is invalid, without a
-- target and without attempts, whose last error is the flaw, with its code and message, at the time
-- of the read.
pub get-flaw :
    (kv : JsMap Stored) (host n : String) (raw : Stored) (flaw : Flaw) (clock : ℕ)
    → normalize_domain_host host ≡ some n
    → get ("domain:" +++ n) kv ≡ some raw
    → flaw_of raw ≡ some flaw
    → (entry : DomainMapEntry) × (get_domain_map_entry kv host clock ≡ some (some entry))
      × Flawed flaw clock n entry
unfolding get_domain_map_entry
get-flaw kv host n raw flaw clock named there flawed_text =
    let (entry, parsed, flawed) = parse-Flawed host n clock named raw flaw flawed_text in
    (
      entry,
      rw (domain_map_key-named host n named, there, filled_flaw raw flaw flawed_text, parsed) refl,
      flawed,
    )
