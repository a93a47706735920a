-- ===== src/DomainMap/Schedule.antt =====
-- workers/async-worker/src/domainStateMachine.ts: when the next refresh of a host is due. The
-- jitter that computeRefreshSchedulingHint adds, a product of floating-point numbers, is not
-- modelled.
use blackcat_darkmesh_gatewa.DomainMap.{DomainMapStatus, valid, stale, invalid, DomainMapEntry}
use blackcat_darkmesh_gatewa.DomainMap.Machine.{should_invalidate, apply_hard_expiry}
use blackcat_darkmesh_gatewa.Base.{
  ℕ, ◌+◌, ◌-◌, ◌≤◌, min, max, ◌≡◌, ◌≢◌, ◌↔◌, inl, inr, true, false, Option, none, some, arith,
  if◌then◌else◌, or_else, Bool-cases, Option-cases,
}

pub data RefreshScheduleReason : Type 0 where
  initial : RefreshScheduleReason
  valid_refresh : RefreshScheduleReason
  stale_retry : RefreshScheduleReason
  invalid_retry : RefreshScheduleReason
  hard_expired : RefreshScheduleReason

pub record DomainRefreshSchedulingOptions : Type 0 where
  pub valid_lead_ms : Option ℕ
  pub stale_retry_ms : Option ℕ
  pub invalid_retry_ms : Option ℕ

abbrev pub valid_lead : DomainRefreshSchedulingOptions → ℕ
valid_lead o = or_else o.valid_lead_ms 30000

abbrev pub stale_retry_time : DomainRefreshSchedulingOptions → ℕ
stale_retry_time o = or_else o.stale_retry_ms 15000

abbrev pub invalid_retry_time : DomainRefreshSchedulingOptions → ℕ
invalid_retry_time o = or_else o.invalid_retry_ms 30000

abbrev pub at_most : ℕ → Option ℕ → ℕ
at_most n none = n
at_most n (some m) = min n m

-- The plan for an entry after hard expiry, by its status.
unfoldable pub plan_for :
    DomainMapStatus
    → DomainMapEntry
    → ℕ
    → DomainRefreshSchedulingOptions
    → RefreshScheduleReason × ℕ
plan_for valid entry now_ms o = elim entry.expires_at [
  | none ↦ (invalid_retry, now_ms + invalid_retry_time o)
  | some expires_at ↦ (valid_refresh, max now_ms (expires_at - valid_lead o))
]
plan_for stale entry now_ms o = (
  if should_invalidate entry now_ms then hard_expired else stale_retry,
  at_most (now_ms + stale_retry_time o) entry.hard_expires_at,
)
plan_for invalid entry now_ms o = (
  if should_invalidate entry now_ms then hard_expired else invalid_retry,
  now_ms + invalid_retry_time o,
)

unfoldable pub get_base_refresh_plan :
    Option DomainMapEntry → ℕ → DomainRefreshSchedulingOptions → RefreshScheduleReason × ℕ
get_base_refresh_plan none now_ms o = (initial, now_ms)
get_base_refresh_plan (some current) now_ms o =
    let entry = apply_hard_expiry current now_ms in plan_for entry.status entry now_ms o

unfoldable pub compute_next_refresh_at :
    Option DomainMapEntry → ℕ → DomainRefreshSchedulingOptions → ℕ
compute_next_refresh_at current now_ms o = (get_base_refresh_plan current now_ms o).1

plan_for_running :
    (status : DomainMapStatus) (e : DomainMapEntry) (now_ms : ℕ)
    (o : DomainRefreshSchedulingOptions)
    → should_invalidate e now_ms ≡ false
    → let plan = plan_for status e now_ms o in
      (now_ms ≤ plan.1)
      × (plan.1
          ≤ max (or_else e.expires_at 0) (now_ms + max (stale_retry_time o) (invalid_retry_time o)))
      × (plan.0 ≢ hard_expired)
unfolding plan_for
plan_for_running valid e now_ms o running = elim (Option-cases e.expires_at) [
  | inl e ↦ ground arith
  | inr (x, e) ↦ ground arith
]
plan_for_running stale e now_ms o running = elim (Option-cases e.hard_expires_at) [
  | inl e ↦ ground arith
  | inr (x, e) ↦ ground arith
]
plan_for_running invalid e now_ms o running = ground arith

-- The schedule of an entry. The next refresh is not in the past, and not later than the longest of
-- the retry times and the entry's expiry; the reason is the hard expiry exactly when that time has passed.
pub get_base_refresh_plan_lem :
    (e : DomainMapEntry) (now_ms : ℕ) (o : DomainRefreshSchedulingOptions)
    → let plan = get_base_refresh_plan (some e) now_ms o in
      (now_ms ≤ plan.1)
      × (plan.1
          ≤ max (or_else e.expires_at 0) (now_ms + max (stale_retry_time o) (invalid_retry_time o)))
      × ((plan.0 ≡ hard_expired) ↔ (should_invalidate e now_ms ≡ true))
unfolding get_base_refresh_plan plan_for apply_hard_expiry
get_base_refresh_plan_lem e now_ms o = elim (Bool-cases (should_invalidate e now_ms)) [
  | inl past ↦ ground arith
  | inr early ↦ ground (arith, plan_for_running e.status e now_ms o early)
]

-- While a stale entry may still be served, its next refresh comes before its hard expiry.
pub compute_next_refresh_at-stale :
    (e : DomainMapEntry) (now_ms limit : ℕ) (o : DomainRefreshSchedulingOptions)
    → e.status ≡ stale
    → e.hard_expires_at ≡ some limit
    → now_ms ≤ limit
    → compute_next_refresh_at (some e) now_ms o ≤ limit
unfolding compute_next_refresh_at get_base_refresh_plan plan_for apply_hard_expiry
compute_next_refresh_at-stale e now_ms limit o is_stale held ahead = ground arith
