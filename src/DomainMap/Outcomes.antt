-- ===== src/DomainMap/Outcomes.antt =====
-- What the outcomes of workers/async-worker/src/domainStateMachine.ts leave of an entry.
use blackcat_darkmesh_gatewa.DomainMap.{DomainMapEntry}
use blackcat_darkmesh_gatewa.DomainMap.Machine.{
  DomainStateMachineOptions, DomainRefreshOutcome, refresh_success, refresh_failure,
  DomainProbeOutcome, probe_success, probe_failure, apply_hard_expiry, refresh, probe, clamp_ttl,
}
use blackcat_darkmesh_gatewa.Base.{ℕ, ◌≤◌, max, ◌≡◌, refl, arith, or_else}

pub host-apply_hard_expiry :
    (e : DomainMapEntry) (now : ℕ) → (apply_hard_expiry e now).host ≡ e.host
unfolding apply_hard_expiry
host-apply_hard_expiry e now = ground arith

pub host-refresh :
    (e : DomainMapEntry) (o : DomainRefreshOutcome) (now : ℕ) (options : DomainStateMachineOptions)
    → (refresh e o now options).host ≡ e.host
unfolding refresh
host-refresh e (refresh_success s) now options = refl
host-refresh e (refresh_failure error) now options = refl

pub host-probe :
    (e : DomainMapEntry) (o : DomainProbeOutcome) (now : ℕ) → (probe e o now).host ≡ e.host
unfolding probe
host-probe e probe_success now = ground arith
host-probe e (probe_failure error) now = refl

-- A time to live between its bounds.
pub clamp_ttl-le :
    (ttl : ℕ) (o : DomainStateMachineOptions)
    → (or_else o.min_ttl_ms 30000 ≤ clamp_ttl ttl o)
      × (clamp_ttl ttl o ≤ max (or_else o.min_ttl_ms 30000) (or_else o.max_ttl_ms 86400000))
unfolding clamp_ttl
clamp_ttl-le ttl o = (omega arith, omega arith)
