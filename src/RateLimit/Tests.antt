-- ===== src/RateLimit/Tests.antt =====
-- Runs of src/ratelimit.ts on small inputs.
use blackcat_darkmesh_gatewa.Metrics
use blackcat_darkmesh_gatewa.Metrics.{inc_by, gauge, norm}
use blackcat_darkmesh_gatewa.Text.{trim, trim_start, trim_end, cut, split, parse_positive}
use blackcat_darkmesh_gatewa.RateLimit.{
  RateLimitConfig, RateLimit, effective_max_for_key, check, prune, prune_buckets, parse_overrides,
}
use blackcat_darkmesh_gatewa.RateLimit.Checks.{IsPositive, IsValid}
use blackcat_darkmesh_gatewa.RateLimit.Windows.{Call, asked, allowed, window_limit}
use blackcat_darkmesh_gatewa.Base.{◌+◌, min, ◌≡◌, refl, some, List, [], ◌∷◌, arith, if◌then◌else◌}
use blackcat_darkmesh_gatewa.JsMap.{get, set, delete, size, delete_where, delete_oldest_while}

overrides :
    parse_overrides (some " inbox = 5 ,bad, webhook=40,x=0,=3")
    ≡ ("inbox", 5) ∷ ("webhook", 40) ∷ []
unfolding parse_overrides set trim trim_start trim_end cut split parse_positive
overrides = refl

abbrev small : RateLimitConfig
small = record {
  window_ms = 100;
  max_req = 2;
  max_buckets = 5;
  prefix_overrides = ("inbox", 1) ∷ [];
}

abbrev start : RateLimit
start = record { buckets = []; metrics = Metrics.empty }

small-IsPositive : IsPositive small
small-IsPositive = omega arith

start-IsValid : IsValid small start
start-IsValid = omega arith

limits : (effective_max_for_key small "inbox:1.2.3.4" ≡ 1) × (effective_max_for_key small ":x" ≡ 2)
unfolding effective_max_for_key get cut
limits = (refl, refl)

abbrev calls : List Call
calls =
    record { key = "k"; at = 30 }
    ∷ record { key = "j"; at = 20 }
    ∷ record { key = "k"; at = 10 }
    ∷ []

one_bucket : size (check small "k" 7 start).0.buckets ≡ 1
unfolding check prune prune_buckets get set delete delete_where delete_oldest_while
    effective_max_for_key cut
one_bucket = refl

window_limit_example :
    (if (check small "k" 7 start).1 then 1 else 0)
      + allowed small "k" (check small "k" 7 start).0 calls
    ≡ min (asked small "k" calls + 1) (effective_max_for_key small "k")
unfolding get
window_limit_example =
    window_limit small start "k" 7 calls small-IsPositive start-IsValid refl
      (omega (arith, one_bucket)) (omega arith)
