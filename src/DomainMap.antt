-- ===== src/DomainMap.antt =====
-- workers/async-worker/src/domainMapStore.ts: the record kept for a host, and the name it is kept
-- under. A thrown error is `none`.
pub mod Machine
pub mod Schedule
pub mod Store
pub mod Outcomes
pub mod Histories
mod Tests
use blackcat_darkmesh_gatewa.Text.{trim, to_lower, drop_last}
use blackcat_darkmesh_gatewa.Base.{
  ℕ, zero, suc, ◌+◌, ◌-◌, ◌*◌, ◌/◌, ◌%◌, ◌^◌, ◌≤◌, ◌<◌, min, max, ◌≡◌, refl, sym, ap, ◌∙◌, subst,
  ◌≢◌, ◌↔◌, ◌⊎◌, inl, inr, String, Bool, true, false, ◌&&◌, ◌||◌, not, Option, none, some, List, [],
  ◌∷◌, ◌++◌, map, ◌===◌, eq_iff, eq_refl, arith, ltb, leb, ◌==◌, if◌then◌else◌, is_some, or_else,
  option_map, Bool-cases, Option-cases, length, length-append, All, All-append, Any, leb→le, le→leb,
  ltb→lt, lt→ltb,
}

pub data DomainMapStatus : Type 0 where
  valid : DomainMapStatus
  stale : DomainMapStatus
  invalid : DomainMapStatus

pub record DomainMapError : Type 0 where
  pub code : String
  pub message : String
  pub at : ℕ

pub record DomainMapEntry : Type 0 where
  pub schema_version : ℕ
  pub host : String
  pub status : DomainMapStatus
  pub cfg_tx : Option String
  pub resolved_target : Option String
  pub write_process : Option String
  pub config_hash : Option String
  pub verified_at : Option ℕ
  pub expires_at : Option ℕ
  pub hb_verified_at : Option ℕ
  pub hard_expires_at : Option ℕ
  pub last_error : Option DomainMapError
  pub last_success_at : Option ℕ
  pub last_error_at : Option ℕ
  pub last_error_code : Option String
  pub refresh_attempts : ℕ
  pub updated_at : ℕ

unfoldable pub normalize_domain_host : String → Option String
normalize_domain_host host =
    let normalized = drop_last b'.' (to_lower (trim host)) in
    if normalized === "" then none else some normalized

abbrev pub empty_entry : String → ℕ → DomainMapEntry
empty_entry host now_ms = record {
  schema_version = 2;
  host = host;
  status = DomainMapStatus.invalid;
  cfg_tx = none;
  resolved_target = none;
  write_process = none;
  config_hash = none;
  verified_at = none;
  expires_at = none;
  hb_verified_at = none;
  hard_expires_at = none;
  last_error = none;
  last_success_at = none;
  last_error_at = none;
  last_error_code = none;
  refresh_attempts = 0;
  updated_at = now_ms;
}

unfoldable pub create_empty_domain_map_entry : String → ℕ → Option DomainMapEntry
create_empty_domain_map_entry host now_ms =
    option_map (λ normalized. empty_entry normalized now_ms) (normalize_domain_host host)
