-- ===== src/RateLimit/Windows.antt =====
-- Sequences of `check` calls of src/ratelimit.ts inside one window of a key. The calls are listed
-- with the latest first.
use blackcat_darkmesh_gatewa.RateLimit.{
  Bucket, RateLimitConfig, RateLimit, effective_max_for_key, check,
}
use blackcat_darkmesh_gatewa.RateLimit.Checks.{
  IsPositive, IsValid, check-IsValid, check_lem, get-check_other, size-check-le,
}
use blackcat_darkmesh_gatewa.Base.{
  ℕ, ◌+◌, ◌-◌, ◌≤◌, ◌<◌, min, ◌≡◌, String, ◌&&◌, none, some, List, [], ◌∷◌, ◌===◌, eq_iff, arith,
  if◌then◌else◌, length, All,
}
use blackcat_darkmesh_gatewa.JsMap.{get, size}

pub record Call : Type 0 where
  pub key : String
  pub at : ℕ

module _ (cfg : RateLimitConfig) where
  unfoldable pub after : RateLimit → List Call → RateLimit
  after s [] = s
  after s (c ∷ earlier) = (check cfg c.key c.at (after s earlier)).0

  -- How many of the calls were for the key, and how many of these were allowed.
  unfoldable pub asked : String → List Call → ℕ
  asked key [] = 0
  asked key (c ∷ earlier) = let n = asked key earlier in if c.key === key then n + 1 else n

  unfoldable pub allowed : String → RateLimit → List Call → ℕ
  allowed key s [] = 0
  allowed key s (c ∷ earlier) =
      let n = allowed key s earlier in
      if (c.key === key) && (check cfg c.key c.at (after s earlier)).1 then n + 1 else n

  after-IsValid : (s : RateLimit) (calls : List Call) → IsValid cfg s → IsValid cfg (after s calls)
  unfolding after
  after-IsValid s [] v = v
  after-IsValid s (c ∷ earlier) v =
      check-IsValid cfg c.key c.at (after s earlier) (after-IsValid s earlier v).unique

  size-after-le :
      (s : RateLimit) (calls : List Call)
      → size (after s calls).buckets ≤ size s.buckets + length calls
  unfolding after
  size-after-le s [] = omega arith
  size-after-le s (c ∷ earlier) =
      omega (arith, size-check-le cfg c.key c.at (after s earlier), size-after-le s earlier)

  abbrev pub Before : ℕ → Call → Type 0
  Before reset c = c.at < reset

  module _ (p : IsPositive cfg) (s : RateLimit) (key : String) (b : Bucket) (v : IsValid cfg s)
      (held : get key s.buckets ≡ some b) where
    -- Until its time comes, the bucket counts the calls for its key.
    bucket-after :
        (calls : List Call)
        → size s.buckets + length calls ≤ cfg.max_buckets
        → All (Before b.reset) calls
        → get key (after s calls).buckets
          ≡ some (record { count = b.count + asked key calls; reset = b.reset })
    unfolding after asked
    bucket-after [] room w = ground arith
    bucket-after (c ∷ earlier) room (w, ws) =
        let t = after s earlier in
        let ih = bucket-after earlier (omega arith) ws in
        let valid = after-IsValid s earlier v in
        ground (
          arith,
          ih,
          check_lem cfg c.key c.at t p valid,
          get-check_other cfg c.key c.at t key valid,
          size-after-le s earlier,
          eq_iff c.key key,
        )

    allowed_in_window :
        (calls : List Call)
        → size s.buckets + length calls ≤ cfg.max_buckets
        → All (Before b.reset) calls
        → allowed key s calls ≡ min (asked key calls) (effective_max_for_key cfg key - b.count)
    unfolding allowed asked
    allowed_in_window [] room w = omega arith
    allowed_in_window (c ∷ earlier) room (w, ws) =
        let t = after s earlier in
        let ih = allowed_in_window earlier (omega arith) ws in
        let bucket = bucket-after earlier (omega arith) ws in
        ground (
          arith,
          ih,
          bucket,
          check_lem cfg c.key c.at t p (after-IsValid s earlier v),
          eq_iff c.key key,
        )

  -- The limit of a window. From a valid state without a bucket for the key, under positive limits,
  -- let the key be checked at `start` and then any calls come before `start + WINDOW_MS`, as many as
  -- there is room for buckets. Then of all the calls for the key exactly the first
  -- `effectiveMaxForKey(key)` are allowed: their number is the smaller of that limit and the number
  -- of calls for the key.
  pub window_limit :
      (s : RateLimit) (key : String) (start : ℕ) (calls : List Call)
      → let first = check cfg key start s in
        IsPositive cfg
        → IsValid cfg s
        → get key s.buckets ≡ none
        → size first.0.buckets + length calls ≤ cfg.max_buckets
        → All (Before (start + cfg.window_ms)) calls
        → (if first.1 then 1 else 0) + allowed key first.0 calls
          ≡ min (asked key calls + 1) (effective_max_for_key cfg key)
  window_limit s key start calls p v new room w =
      let first = check cfg key start s in
      let fresh = check_lem cfg key start s p v in
      let kept : get key first.0.buckets
          ≡ some (record { count = 1; reset = start + cfg.window_ms }) =
        ground (arith, fresh, new) in
      let rest =
        allowed_in_window p first.0 key (record { count = 1; reset = start + cfg.window_ms })
          (check-IsValid cfg key start s v.unique) kept calls room w in
      ground (arith, rest, fresh, new)
