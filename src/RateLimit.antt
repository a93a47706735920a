-- ===== src/RateLimit.antt =====
-- src/ratelimit.ts: fixed-window counters for keys. `Date.now()` is the argument `now`; the
-- constants are a record. A bucket object is changed and written back, so it is a value here.
pub mod Checks
pub mod Windows
mod Tests
use blackcat_darkmesh_gatewa.Metrics.{Metrics, inc_by, inc, gauge}
use blackcat_darkmesh_gatewa.Text.{trim, cut, split, parse_positive}
use blackcat_darkmesh_gatewa.Base.{
  ℕ, zero, suc, ◌+◌, ◌-◌, ◌*◌, ◌/◌, ◌%◌, ◌^◌, ◌≤◌, ◌<◌, min, max, ◌≡◌, refl, sym, ap, ◌∙◌, subst,
  ◌≢◌, ◌↔◌, ◌⊎◌, inl, inr, String, Bool, true, false, ◌&&◌, ◌||◌, not, Option, none, some, List, [],
  ◌∷◌, ◌++◌, map, ◌===◌, eq_iff, eq_refl, arith, ltb, leb, ◌==◌, if◌then◌else◌, is_some, or_else,
  Bool-cases, Option-cases, length, length-append, All, All-append, Any, leb→le, le→leb, ltb→lt,
  lt→ltb,
}
use blackcat_darkmesh_gatewa.JsMap.{
  JsMap, get, set, delete, has, size, first_key, delete_where, delete_oldest_while, IsUnique,
}

pub record Bucket : Type 0 where
  pub count : ℕ
  pub reset : ℕ

pub record RateLimitConfig : Type 0 where
  pub window_ms : ℕ
  pub max_req : ℕ
  pub max_buckets : ℕ
  pub prefix_overrides : JsMap ℕ

pub record RateLimit : Type 0 where
  pub buckets : JsMap Bucket
  pub metrics : Metrics

-- An entry of the overrides, `prefix=max`: the separator is neither first nor last, both parts are
-- trimmed, and the number is positive.
override_of : String → Option (String × ℕ)
override_of trimmed = elim (cut b'=' trimmed) [
  | none ↦ none
  | some (before, behind) ↦
      if (before === "") || (behind === "")
      then none
      else let prefix = trim before in
        let max_req = or_else (parse_positive (trim behind)) 0 in
        if (prefix === "") || max_req == 0 then none else some (prefix, max_req)
]

add_override : Option (String × ℕ) → JsMap ℕ → JsMap ℕ
add_override none overrides = overrides
add_override (some (prefix, max_req)) overrides = set prefix max_req overrides

parse_entries : List String → JsMap ℕ → JsMap ℕ
unfolding override_of add_override
parse_entries [] overrides = overrides
parse_entries (entry ∷ entries) overrides =
    parse_entries entries (add_override (override_of (trim entry)) overrides)

unfoldable pub parse_overrides : Option String → JsMap ℕ
unfolding parse_entries
parse_overrides none = []
parse_overrides (some raw) = parse_entries (split b',' raw) []

-- `PREFIX_OVERRIDES.get(prefix) || MAX_REQ`, where 0 is falsy.
abbrev or_max : Option ℕ → ℕ → ℕ
or_max none max_req = max_req
or_max (some n) max_req = if n == 0 then max_req else n

module _ (cfg : RateLimitConfig) where
  unfoldable pub effective_max_for_key : String → ℕ
  effective_max_for_key key = elim (cut b':' key) [
    | none ↦ cfg.max_req
    | some (prefix, _) ↦
        if prefix === "" then cfg.max_req else or_max (get prefix cfg.prefix_overrides) cfg.max_req
  ]

  abbrev pub is_over : ℕ → Bucket → Bool
  is_over now bucket = leb bucket.reset now

  -- The fuel is the number of buckets: each round of the second loop removes one.
  unfoldable pub prune_buckets : ℕ → JsMap Bucket → JsMap Bucket × ℕ
  prune_buckets now buckets =
      let (rest, removed) = delete_where (is_over now) buckets buckets 0 in
      delete_oldest_while (ltb cfg.max_buckets) (size rest) rest removed

  unfoldable pub prune : ℕ → RateLimit → RateLimit × ℕ
  prune now s =
      let (rest, removed) = prune_buckets now s.buckets in
      (
        record s {
          buckets = rest;
          metrics =
              if ltb 0 removed
              then inc_by "gateway_ratelimit_pruned" removed s.metrics
              else s.metrics;
        },
        removed,
      )

  -- The bucket of the call: the one that is held, started anew if its time has come, and counted.
  abbrev pub bucket_at : ℕ → Option Bucket → Bucket
  bucket_at now none = record { count = 0; reset = now + cfg.window_ms }
  bucket_at now (some b) =
      if leb b.reset now then record { count = 0; reset = now + cfg.window_ms } else b

  abbrev pub counted : ℕ → Option Bucket → Bucket
  counted now o = record { count = (bucket_at now o).count + 1; reset = (bucket_at now o).reset }

  abbrev note : (Metrics → Metrics) → RateLimit → RateLimit
  note f s = record s { metrics = f s.metrics }

  unfoldable pub check : String → ℕ → RateLimit → RateLimit × Bool
  check key now s =
      let max_req = effective_max_for_key key in
      let pruned = note (gauge "gateway_ratelimit_effective_max_last" max_req) (prune now s).0 in
      let b = counted now (get key pruned.buckets) in
      let stored = (prune now (record pruned { buckets = set key b pruned.buckets })).0 in
      let sized = note (gauge "gateway_ratelimit_buckets" (size stored.buckets)) stored in
      if ltb max_req b.count
      then (note (inc "gateway_ratelimit_blocked") sized, false)
      else (sized, true)

unfoldable pub reset_all : RateLimit → RateLimit
reset_all s = record { buckets = []; metrics = gauge "gateway_ratelimit_buckets" 0 s.metrics }
