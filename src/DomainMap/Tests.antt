-- ===== src/DomainMap/Tests.antt =====
-- A host's history by example: a refresh, a failed refresh, probes, a failure after the deadline.
use blackcat_darkmesh_gatewa.DomainMap.{
  valid, stale, invalid, DomainMapEntry, empty_entry, normalize_domain_host,
}
use blackcat_darkmesh_gatewa.DomainMap.Machine.{
  PartialOptions, DomainRefreshSuccess, refresh_success, refresh_failure, probe_success, text,
  clamp_ttl,
}
use blackcat_darkmesh_gatewa.DomainMap.Schedule.{DomainRefreshSchedulingOptions}
use blackcat_darkmesh_gatewa.DomainMap.Histories.{
  Event, refreshed, probed, account, run, Holds, run-Holds,
}
use blackcat_darkmesh_gatewa.Text.{trim, trim_start, trim_end, to_lower, drop_last}
use blackcat_darkmesh_gatewa.Base.{◌≡◌, refl, none, some, List, [], ◌∷◌}

abbrev options : PartialOptions
options = record { stale_if_error_ms = some 1000; min_ttl_ms = none; max_ttl_ms = none }

abbrev found : DomainRefreshSuccess
found = record {
  cfg_tx = "tx";
  resolved_target = "target";
  ttl_ms = 60000;
  write_process = none;
  config_hash = some "h";
  hb_verified_at = none;
}

abbrev history : List Event
history =
    probed 90500 probe_success
    ∷ refreshed 90000 (refresh_failure (text "down"))
    ∷ refreshed 30000 (refresh_success found)
    ∷ refreshed 100 (refresh_failure (text "down"))
    ∷ []

named : normalize_domain_host " Shop.Example. " ≡ some "shop.example"
unfolding normalize_domain_host trim trim_start trim_end to_lower drop_last
named = refl

statuses :
    ((account options (probed 91001 probe_success ∷ history)).status ≡ invalid)
    × ((account options history).status ≡ stale)
unfolding account clamp_ttl
statuses = (refl, refl)

run-Holds_example :
    Holds options "shop.example"
      (account options (probed 91000 probe_success ∷ history))
      (run options " Shop.Example. " (probed 91000 probe_success ∷ history))
run-Holds_example =
    run-Holds options " Shop.Example. " "shop.example" named (probed 91000 probe_success) history

abbrev kept : DomainMapEntry
kept = record (empty_entry "shop.example" 100) {
  status = valid;
  cfg_tx = some "tx";
  resolved_target = some "target";
  config_hash = some "h";
  verified_at = some 30000;
  expires_at = some 90000;
  hard_expires_at = some 91000;
  last_success_at = some 30000;
  updated_at = 30000;
}

abbrev usual : DomainRefreshSchedulingOptions
usual = record { valid_lead_ms = none; stale_retry_ms = none; invalid_retry_ms = some 5 }
