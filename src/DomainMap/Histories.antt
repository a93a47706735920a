-- ===== src/DomainMap/Histories.antt =====
-- Histories of refreshes and probes of one host, workers/async-worker/src/domainStateMachine.ts:
-- the entry they leave, and an account of them that looks at the history alone. A history lists
-- the events with the latest first.
use blackcat_darkmesh_gatewa.DomainMap.{
  empty_entry, DomainMapStatus, valid, stale, invalid, DomainMapEntry,
  create_empty_domain_map_entry, normalize_domain_host,
}
use blackcat_darkmesh_gatewa.DomainMap.Machine.{
  PartialOptions, merge_options, DomainRefreshSuccess, DomainRefreshOutcome, refresh_success,
  refresh_failure, DomainProbeOutcome, probe_success, probe_failure, clamp_ttl, is_after, is_until,
  apply_hard_expiry, refresh, probe, entry_at, apply_refresh_outcome, apply_probe_outcome,
}
use blackcat_darkmesh_gatewa.DomainMap.Outcomes.{host-apply_hard_expiry, host-refresh, host-probe}
use blackcat_darkmesh_gatewa.Base.{
  ℕ, ◌+◌, ◌≡◌, refl, ap, ◌∙◌, String, Bool, false, ◌&&◌, not, Option, none, some, List, [], ◌∷◌,
  ◌===◌, arith, if◌then◌else◌, option_map,
}

pub data Event : Type 0 where
  refreshed : ℕ → DomainRefreshOutcome → Event
  probed : ℕ → DomainProbeOutcome → Event

abbrev pub at : Event → ℕ
at (refreshed now o) = now
at (probed now o) = now

-- The account: the last successful refresh with its time, the failed refreshes since, the status.
pub record Account : Type 0 where
  pub last : Option (ℕ × DomainRefreshSuccess)
  pub failures : ℕ
  pub status : DomainMapStatus

abbrev pub unknown : Account
unknown = record { last = none; failures = 0; status = invalid }

module _ (options : PartialOptions) where
  abbrev pub expiry : ℕ × DomainRefreshSuccess → ℕ
  expiry (t, s) = t + clamp_ttl s.ttl_ms (merge_options options)

  -- The end of the time in which the target may be served although refreshes fail.
  abbrev pub deadline : ℕ × DomainRefreshSuccess → ℕ
  deadline (t, s) =
      t + clamp_ttl s.ttl_ms (merge_options options) + (merge_options options).stale_if_error_ms

  abbrev pub has_target : Option (ℕ × DomainRefreshSuccess) → Bool
  has_target none = false
  has_target (some (t, s)) = not (s.cfg_tx === "") && not (s.resolved_target === "")

  abbrev after_failure : ℕ → Option (ℕ × DomainRefreshSuccess) → DomainMapStatus
  after_failure now last =
      if has_target last && is_until now (option_map deadline last) then stale else invalid

  abbrev pub account_step : Event → Account → Account
  account_step (refreshed now (refresh_success s)) a = record {
    last = some (now, s);
    failures = 0;
    status = valid;
  }
  account_step (refreshed now (refresh_failure error)) a = record {
    last = a.last;
    failures = a.failures + 1;
    status = after_failure now a.last;
  }
  account_step (probed now probe_success) a = record {
    last = a.last;
    failures = a.failures;
    status = if is_after now (option_map deadline a.last) then invalid else a.status;
  }
  account_step (probed now (probe_failure error)) a = record {
    last = a.last;
    failures = a.failures;
    status = after_failure now a.last;
  }

  unfoldable pub account : List Event → Account
  account [] = unknown
  account (x ∷ earlier) = account_step x (account earlier)

  abbrev pub step : String → Event → Option DomainMapEntry → Option DomainMapEntry
  step host (refreshed now o) current = apply_refresh_outcome current o host now options
  step host (probed now o) current = apply_probe_outcome current o host now

  unfoldable pub run : String → List Event → Option DomainMapEntry
  run host [] = none
  run host (x ∷ earlier) = step host x (run host earlier)

  -- The entry holds what the account says.
  abbrev pub Follows : Account → DomainMapEntry → Type 0
  Follows a e =
      (e.cfg_tx ≡ option_map (λ (x : ℕ × DomainRefreshSuccess). x.1.cfg_tx) a.last)
      × (e.resolved_target
          ≡ option_map (λ (x : ℕ × DomainRefreshSuccess). x.1.resolved_target) a.last)
      × (e.expires_at ≡ option_map expiry a.last)
      × (e.hard_expires_at ≡ option_map deadline a.last)
      × (e.refresh_attempts ≡ a.failures)
      × (e.status ≡ a.status)

  -- What an outcome finds: a current entry that follows the account, or a new one.
  abbrev Starts : Account → Option DomainMapEntry → Type 0
  Starts a none = a ≡ unknown
  Starts a (some e) = Follows a e

  abbrev aged : ℕ → Account → Account
  aged now a = record a {
    status = if is_after now (option_map deadline a.last) then invalid else a.status;
  }

  apply_hard_expiry-Follows :
      (a : Account) (e : DomainMapEntry) (now : ℕ)
      → Follows a e
      → Follows (aged now a) (apply_hard_expiry e now)
  unfolding apply_hard_expiry
  apply_hard_expiry-Follows a e now f = ground (arith, f)

  refresh-Follows :
      (a : Account) (e : DomainMapEntry) (now : ℕ) (o : DomainRefreshOutcome)
      → Follows (aged now a) e
      → Follows (account_step (refreshed now o) a) (refresh e o now (merge_options options))
  unfolding refresh
  refresh-Follows a e now (refresh_success s) f = ground (arith, f)
  refresh-Follows a e now (refresh_failure error) f = ground (arith, f)

  probe-Follows :
      (a : Account) (e : DomainMapEntry) (now : ℕ) (o : DomainProbeOutcome)
      → Follows (aged now a) e
      → Follows (account_step (probed now o) a) (probe e o now)
  unfolding probe
  probe-Follows a e now probe_success f = ground (arith, f)
  probe-Follows a e now (probe_failure error) f = ground (arith, f)

  -- The entry exists, is the host's, and holds what the account says.
  abbrev pub Holds : String → Account → Option DomainMapEntry → Type 0
  Holds name a o = (e : DomainMapEntry) × (o ≡ some e) × (e.host ≡ name) × Follows a e

  module _ (host name : String) (named : normalize_domain_host host ≡ some name) where
    entry_at_new-Holds : (now : ℕ) → Holds name (aged now unknown) (entry_at none host now)
    unfolding entry_at create_empty_domain_map_entry apply_hard_expiry
    entry_at_new-Holds now = (
      empty_entry name now,
      ap (λ n. option_map (λ e. apply_hard_expiry e now) (option_map (λ m. empty_entry m now) n))
          named,
      refl,
      (refl, refl, refl, refl, refl, refl),
    )

    entry_at-Holds :
        (now : ℕ) (a : Account) (o : Option DomainMapEntry)
        → Holds name a o
        → Holds name (aged now a) (entry_at o host now)
    unfolding entry_at
    entry_at-Holds now a o (e, held, same, f) = (
      apply_hard_expiry e now,
      ap (λ c. entry_at c host now) held,
      host-apply_hard_expiry e now ∙ same,
      apply_hard_expiry-Follows a e now f,
    )

    event-Holds :
        (x : Event) (a : Account) (o : Option DomainMapEntry)
        → Holds name (aged (at x) a) (entry_at o host (at x))
        → Holds name (account_step x a) (step host x o)
    unfolding apply_refresh_outcome apply_probe_outcome
    event-Holds (refreshed now out) a o (e, held, same, f) = (
      refresh e out now (merge_options options),
      ap (option_map (λ d. refresh d out now (merge_options options))) held,
      host-refresh e out now (merge_options options) ∙ same,
      refresh-Follows a e now out f,
    )
    event-Holds (probed now out) a o (e, held, same, f) = (
      probe e out now,
      ap (option_map (λ d. probe d out now)) held,
      host-probe e out now ∙ same,
      probe-Follows a e now out f,
    )

    -- Refinement. For a host whose name is not empty, whatever refreshes and probes happen at whatever
    -- times, once one has happened there is an entry under the normalized name, and: its target and its
    -- two expiry times are those of the last successful refresh, it counts the failed refreshes since,
    -- and its status is the one that the history alone determines.
    pub run-Holds :
        (x : Event) (earlier : List Event)
        → Holds name (account (x ∷ earlier)) (run host (x ∷ earlier))
    unfolding account run
    run-Holds x [] = event-Holds x unknown none (entry_at_new-Holds (at x))
    run-Holds x (y ∷ earlier) = event-Holds x (account (y ∷ earlier)) (run host (y ∷ earlier)) (
        entry_at-Holds (at x) (account (y ∷ earlier)) (run host (y ∷ earlier))
          (run-Holds y earlier))
