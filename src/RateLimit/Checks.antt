-- ===== src/RateLimit/Checks.antt =====
-- What one `check` of src/ratelimit.ts does.
use blackcat_darkmesh_gatewa.JsMap.Latest.{
  delete_where_idle, Fresh-get, Fresh-set, get-delete_oldest_while-set,
}
use blackcat_darkmesh_gatewa.RateLimit.{
  Bucket, RateLimitConfig, RateLimit, effective_max_for_key, is_over, prune_buckets, prune, counted,
  check,
}
use blackcat_darkmesh_gatewa.Base.{
  ℕ, ◌+◌, ◌≤◌, ◌<◌, ◌≡◌, ap, ◌∙◌, String, Bool, false, Option, none, some, ◌===◌, arith, ltb, leb,
  if◌then◌else◌,
}
use blackcat_darkmesh_gatewa.JsMap.{JsMap, get, set, size, delete_where, IsUnique}
use blackcat_darkmesh_gatewa.JsMap.Laws.{get-set, set-IsUnique}
use blackcat_darkmesh_gatewa.JsMap.Sizes.{size-set}
use blackcat_darkmesh_gatewa.JsMap.Sweeps.{
  passes, get-delete_where, delete_where-IsUnique, size-delete_where-le, delete_oldest_while_stops,
  delete_oldest_while-IsUnique, delete_oldest_while_idle, size-delete_oldest_while-le,
}

pub record IsPositive (cfg : RateLimitConfig) : Type 0 where
  pub window : 0 < cfg.window_ms
  pub room : 0 < cfg.max_buckets

pub record IsValid (cfg : RateLimitConfig) (s : RateLimit) : Type 0 where
  pub unique : IsUnique s.buckets
  pub bounded : size s.buckets ≤ cfg.max_buckets

module _ (cfg : RateLimitConfig) (now : ℕ) where
  abbrev pub dead : Option Bucket → Bool
  dead o = passes (is_over cfg now) o

  prune_buckets-IsUnique : (m : JsMap Bucket) → IsUnique m → IsUnique (prune_buckets cfg now m).0
  unfolding prune_buckets
  prune_buckets-IsUnique m u =
      delete_oldest_while-IsUnique (ltb cfg.max_buckets) _ _ _
        (delete_where-IsUnique (is_over cfg now) m m 0 u)

  -- Pruning brings the number of buckets under the limit.
  size-prune_buckets-le :
      (m : JsMap Bucket) → IsUnique m → size (prune_buckets cfg now m).0 ≤ cfg.max_buckets
  unfolding prune_buckets
  size-prune_buckets-le m u =
      let r = delete_where (is_over cfg now) m m 0 in
      ground (
        arith,
        delete_oldest_while_stops (ltb cfg.max_buckets) (size r.0) r.0 r.1
            (delete_where-IsUnique (is_over cfg now) m m 0 u),
      )

  -- Within the limit pruning removes the buckets whose time has come and nothing else.
  get-prune_buckets :
      (m : JsMap Bucket) (j : String)
      → IsUnique m
      → size m ≤ cfg.max_buckets
      → get j (prune_buckets cfg now m).0 ≡ (if dead (get j m) then none else get j m)
  unfolding prune_buckets
  get-prune_buckets m j u fits =
      let r = delete_where (is_over cfg now) m m 0 in
      ground (
        arith,
        delete_oldest_while_idle (ltb cfg.max_buckets) (size r.0) r.0 r.1,
        size-delete_where-le (is_over cfg now) m m 0,
        get-delete_where (is_over cfg now) j m 0 u,
      )

  -- Pruning once more, after a bucket is written that is not over, keeps that bucket.
  get-prune_buckets-set :
      (k : String) (b : Bucket) (m : JsMap Bucket)
      → IsUnique m
      → 0 < cfg.max_buckets
      → size m ≤ cfg.max_buckets
      → is_over cfg now b ≡ false
      → ((j : String) → dead (get j m) ≡ false)
      → get k (prune_buckets cfg now (set k b m)).0 ≡ some b
  unfolding prune_buckets
  get-prune_buckets-set k b m u room fits runs alive =
      rw
        (delete_where_idle (is_over cfg now) (set k b m) (set k b m) 0
          (Fresh-set (is_over cfg now) k b m runs (Fresh-get (is_over cfg now) m u alive)))
        (get-delete_oldest_while-set cfg.max_buckets k b m (size (set k b m)) 0 u room fits)

  -- With room for one more, the other buckets stay too.
  get-prune_buckets-set_other :
      (k j : String) (b : Bucket) (m : JsMap Bucket)
      → IsUnique m
      → size m < cfg.max_buckets
      → (k === j) ≡ false
      → get j (prune_buckets cfg now (set k b m)).0 ≡ (if dead (get j m) then none else get j m)
  get-prune_buckets-set_other k j b m u room other = ground (
    arith,
    get-prune_buckets (set k b m) j (set-IsUnique k b m u),
    size-set k b m,
    get-set k j b m,
  )

  size-prune_buckets-le_size : (m : JsMap Bucket) → size (prune_buckets cfg now m).0 ≤ size m
  unfolding prune_buckets
  size-prune_buckets-le_size m =
      let r = delete_where (is_over cfg now) m m 0 in
      omega (
        arith,
        size-delete_oldest_while-le (ltb cfg.max_buckets) (size r.0) r.0 r.1,
        size-delete_where-le (is_over cfg now) m m 0,
      )

module _ (cfg : RateLimitConfig) (key : String) (now : ℕ) (s : RateLimit) where
  abbrev pruned : JsMap Bucket
  pruned = (prune_buckets cfg now s.buckets).0

  buckets-check :
      (check cfg key now s).0.buckets
      ≡ (prune_buckets cfg now (set key (counted cfg now (get key pruned)) pruned)).0
  unfolding check prune
  buckets-check = ground arith

  answer-check :
      (check cfg key now s).1
      ≡ leb (counted cfg now (get key pruned)).count (effective_max_for_key cfg key)
  unfolding check prune
  answer-check = ground arith

  -- Every `check` leaves distinct keys and at most `MAX_BUCKETS` buckets, whatever they were.
  pub check-IsValid : IsUnique s.buckets → IsValid cfg (check cfg key now s).0
  check-IsValid u =
      let u' =
        set-IsUnique key (counted cfg now (get key pruned)) pruned
          (prune_buckets-IsUnique cfg now s.buckets u) in
      record {
        unique = rw buckets-check (prune_buckets-IsUnique cfg now _ u');
        bounded = rw buckets-check (size-prune_buckets-le cfg now _ u');
      }

  counted-pruned :
      IsValid cfg s → counted cfg now (get key pruned) ≡ counted cfg now (get key s.buckets)
  counted-pruned v = ground (arith, get-prune_buckets cfg now s.buckets key v.unique v.bounded)

  alive-pruned : IsValid cfg s → (j : String) → dead cfg now (get j pruned) ≡ false
  alive-pruned v j = ground (arith, get-prune_buckets cfg now s.buckets j v.unique v.bounded)

  -- With a positive window and bucket limit and a valid state, `check` counts the call in the key's
  -- running bucket, or in a new one that runs for a window from now on; it allows the call exactly
  -- if the count is within the key's limit, and the bucket with that count is kept.
  pub check_lem :
      IsPositive cfg
      → IsValid cfg s
      → ((check cfg key now s).1
          ≡ leb (counted cfg now (get key s.buckets)).count (effective_max_for_key cfg key))
        × (get key (check cfg key now s).0.buckets ≡ some (counted cfg now (get key s.buckets)))
  check_lem p v =
      let b = counted cfg now (get key pruned) in
      let runs : is_over cfg now b ≡ false = ground (arith, p.window) in
      let kept =
        get-prune_buckets-set cfg now key b pruned
          (prune_buckets-IsUnique cfg now s.buckets v.unique) p.room
          (size-prune_buckets-le cfg now s.buckets v.unique) runs (alive-pruned v) in
      (
        answer-check
            ∙ ap (λ (c : Bucket). leb c.count (effective_max_for_key cfg key)) (counted-pruned v),
        ap (get key) buckets-check ∙ kept ∙ ap some (counted-pruned v),
      )

  -- With room for one more bucket the other keys' running buckets are as they were.
  pub get-check_other :
      (j : String)
      → IsValid cfg s
      → size s.buckets < cfg.max_buckets
      → (key === j) ≡ false
      → get j (check cfg key now s).0.buckets
        ≡ (if dead cfg now (get j s.buckets) then none else get j s.buckets)
  get-check_other j v room other = ground (
    arith,
    buckets-check,
    get-prune_buckets-set_other cfg now key j (counted cfg now (get key pruned)) pruned
        (prune_buckets-IsUnique cfg now s.buckets v.unique)
        (omega (arith, room, size-prune_buckets-le_size cfg now s.buckets)) other,
    get-prune_buckets cfg now s.buckets j v.unique v.bounded,
  )

  pub size-check-le : size (check cfg key now s).0.buckets ≤ size s.buckets + 1
  size-check-le = ground (
    arith,
    buckets-check,
    size-prune_buckets-le_size cfg now (set key (counted cfg now (get key pruned)) pruned),
    size-set key (counted cfg now (get key pruned)) pruned,
    size-prune_buckets-le_size cfg now s.buckets,
  )
