-- ===== src/DomainMap/Machine.antt =====
-- workers/async-worker/src/domainStateMachine.ts: what hard expiry, the outcome of a refresh and the
-- outcome of a probe make of a host's entry. `Date.now()` is the argument `now_ms`, a thrown error
-- is `none`.
use blackcat_darkmesh_gatewa.DomainMap.{
  DomainMapStatus, valid, stale, invalid, DomainMapError, DomainMapEntry,
  create_empty_domain_map_entry,
}
use blackcat_darkmesh_gatewa.Base.{
  ℕ, ◌+◌, min, max, String, Bool, true, false, ◌&&◌, not, Option, none, some, ◌===◌, ltb, leb,
  if◌then◌else◌, or_else, option_map,
}

pub record DomainStateMachineOptions : Type 0 where
  pub stale_if_error_ms : ℕ
  pub min_ttl_ms : Option ℕ
  pub max_ttl_ms : Option ℕ

-- The options that a caller passes, `Partial<DomainStateMachineOptions>`.
pub record PartialOptions : Type 0 where
  pub stale_if_error_ms : Option ℕ
  pub min_ttl_ms : Option ℕ
  pub max_ttl_ms : Option ℕ

pub data GivenError : Type 0 where
  text : String → GivenError
  given : DomainMapError → GivenError

pub record DomainRefreshSuccess : Type 0 where
  pub cfg_tx : String
  pub resolved_target : String
  pub ttl_ms : ℕ
  pub write_process : Option String
  pub config_hash : Option String
  pub hb_verified_at : Option ℕ

pub data DomainRefreshOutcome : Type 0 where
  refresh_success : DomainRefreshSuccess → DomainRefreshOutcome
  refresh_failure : GivenError → DomainRefreshOutcome

pub data DomainProbeOutcome : Type 0 where
  probe_success : DomainProbeOutcome
  probe_failure : GivenError → DomainProbeOutcome

abbrev pub default_options : DomainStateMachineOptions
default_options = record {
  stale_if_error_ms = 300000;
  min_ttl_ms = some 30000;
  max_ttl_ms = some 86400000;
}

-- `a ?? b` where both may be null.
abbrev pub first_some {ℓ} : {A : Type ℓ} → Option A → Option A → Option A
first_some none b = b
first_some (some a) b = some a

abbrev pub merge_options : PartialOptions → DomainStateMachineOptions
merge_options o = record {
  stale_if_error_ms = or_else o.stale_if_error_ms default_options.stale_if_error_ms;
  min_ttl_ms = first_some o.min_ttl_ms default_options.min_ttl_ms;
  max_ttl_ms = first_some o.max_ttl_ms default_options.max_ttl_ms;
}

unfoldable pub clamp_ttl : ℕ → DomainStateMachineOptions → ℕ
clamp_ttl ttl_ms o = max (or_else o.min_ttl_ms 30000) (min ttl_ms (or_else o.max_ttl_ms 86400000))

-- `s || fallback`
abbrev pub nonempty_or : String → String → String
nonempty_or s fallback = if s === "" then fallback else s

unfoldable pub as_error : GivenError → ℕ → DomainMapError
as_error (text message) at = record { code = "error"; message = message; at = at }
as_error (given e) at = record {
  code = nonempty_or e.code "error";
  message = nonempty_or e.message "unknown_error";
  at = e.at;
}

abbrev pub is_after : ℕ → Option ℕ → Bool
is_after now_ms none = false
is_after now_ms (some t) = ltb t now_ms

abbrev pub should_invalidate : DomainMapEntry → ℕ → Bool
should_invalidate entry now_ms = is_after now_ms entry.hard_expires_at

-- A text that is neither null nor empty.
abbrev pub has_text : Option String → Bool
has_text none = false
has_text (some s) = not (s === "")

abbrev pub has_serveable_target : DomainMapEntry → Bool
has_serveable_target entry = has_text entry.cfg_tx && has_text entry.resolved_target

abbrev pub is_until : ℕ → Option ℕ → Bool
is_until now_ms none = false
is_until now_ms (some t) = leb now_ms t

abbrev pub can_use_stale_if_error : DomainMapEntry → ℕ → Bool
can_use_stale_if_error entry now_ms =
    has_serveable_target entry && is_until now_ms entry.hard_expires_at

abbrev pub with_status : DomainMapEntry → DomainMapStatus → ℕ → DomainMapEntry
with_status entry status now_ms = record entry { status = status; updated_at = now_ms }

unfoldable pub apply_hard_expiry : DomainMapEntry → ℕ → DomainMapEntry
apply_hard_expiry entry now_ms =
    if should_invalidate entry now_ms
    then record entry {
      status = invalid;
      last_error_code = some (or_else entry.last_error_code "hard_expired");
      updated_at = now_ms;
    }
    else entry

-- The error fields and the status after a failure, which a refresh and a probe share.
abbrev pub failed : DomainMapEntry → GivenError → ℕ → DomainMapEntry
failed entry error now_ms =
    record (with_status entry (if can_use_stale_if_error entry now_ms then stale else invalid)
      now_ms) {
        last_error = some (as_error error now_ms);
        last_error_at = some now_ms;
        last_error_code = some (as_error error now_ms).code;
      }

-- The entry that an outcome meets: the current one or a new one, after hard expiry.
unfoldable pub entry_at : Option DomainMapEntry → String → ℕ → Option DomainMapEntry
entry_at (some current) host now_ms = some (apply_hard_expiry current now_ms)
entry_at none host now_ms =
    option_map (λ e. apply_hard_expiry e now_ms) (create_empty_domain_map_entry host now_ms)

unfoldable pub refresh :
    DomainMapEntry → DomainRefreshOutcome → ℕ → DomainStateMachineOptions → DomainMapEntry
refresh entry (refresh_success o) now_ms options =
    let expires_at = now_ms + clamp_ttl o.ttl_ms options in
    record entry {
      status = valid;
      cfg_tx = some o.cfg_tx;
      resolved_target = some o.resolved_target;
      write_process = first_some o.write_process entry.write_process;
      config_hash = first_some o.config_hash entry.config_hash;
      verified_at = some now_ms;
      expires_at = some expires_at;
      hb_verified_at = first_some o.hb_verified_at entry.hb_verified_at;
      hard_expires_at = some (expires_at + options.stale_if_error_ms);
      last_error = none;
      last_success_at = some now_ms;
      last_error_at = none;
      last_error_code = none;
      refresh_attempts = 0;
      updated_at = now_ms;
    }
refresh entry (refresh_failure error) now_ms options = record (failed entry error now_ms) {
  refresh_attempts = entry.refresh_attempts + 1;
}

unfoldable pub apply_refresh_outcome :
    Option DomainMapEntry
    → DomainRefreshOutcome
    → String
    → ℕ
    → PartialOptions
    → Option DomainMapEntry
apply_refresh_outcome current outcome host now_ms options =
    option_map (λ entry. refresh entry outcome now_ms (merge_options options))
      (entry_at current host now_ms)

abbrev pub is_invalid : DomainMapStatus → Bool
is_invalid invalid = true
is_invalid _ = false

unfoldable pub probe : DomainMapEntry → DomainProbeOutcome → ℕ → DomainMapEntry
probe entry probe_success now_ms =
    if is_invalid entry.status
    then record entry { hb_verified_at = some now_ms; updated_at = now_ms }
    else record entry {
      hb_verified_at = some now_ms;
      last_error = none;
      last_error_at = none;
      last_error_code = none;
      updated_at = now_ms;
    }
probe entry (probe_failure error) now_ms = failed entry error now_ms

unfoldable pub apply_probe_outcome :
    Option DomainMapEntry → DomainProbeOutcome → String → ℕ → Option DomainMapEntry
apply_probe_outcome current outcome host now_ms =
    option_map (λ entry. probe entry outcome now_ms) (entry_at current host now_ms)
