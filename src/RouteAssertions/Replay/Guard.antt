-- ===== src/RouteAssertions/Replay/Guard.antt =====
-- A claim that is answered as new before any wait, workers/secrets-worker/src/routeAssertionReplay.ts.
use blackcat_darkmesh_gatewa.RouteAssertions.Replay.{
  ReplayClaimResult, fresh, replayed, refused, parse_boolean_like, Env, replay_ttl, claim_in_memory,
  claim, Assertion, replay_key, Service, claim_route_assertion_replay,
}
use blackcat_darkmesh_gatewa.RouteAssertions.Replay.Memory.{
  is_held, claim_in_memory_lem, replay_ttl-le,
}
use blackcat_darkmesh_gatewa.Base.{
  ℕ, ◌+◌, ◌≤◌, ◌<◌, ◌≡◌, refl, sym, ap, ◌∙◌, ◌⊎◌, inl, inr, String, Bool, true, false, ◌||◌, not,
  Option, none, some, eq_refl, arith, ◌==◌, if◌then◌else◌,
}
use blackcat_darkmesh_gatewa.JsMap.{JsMap, get, has, IsUnique}

-- Nothing is held for the key after now.
abbrev pub IsFree : ℕ → Option ℕ → Type 0
IsFree now none = Unit {0}
IsFree now (some seen_until) = seen_until ≤ now

-- The key is held for some time from now on.
abbrev pub IsHeld : ℕ → Option ℕ → Type 0
IsHeld now none = ⊥
IsHeld now (some seen_until) = now < seen_until

-- Either the guard is off, and nothing is claimed; or it is on, the key was free in the memory of the
-- process, and from then on it is held.
abbrev pub IsGuarded : Env → String → ℕ → Service → Service → Type 0
IsGuarded env key now before after =
    ((parse_boolean_like env.route_assert_verify_replay_enabled ≡ false) × (after ≡ before))
    ⊎ ((parse_boolean_like env.route_assert_verify_replay_enabled ≡ true)
        × IsFree now (get key before.memory_replay)
        × IsHeld now (get key after.memory_replay))

free : (now : ℕ) (o : Option ℕ) → is_held now o ≡ false → IsFree now o
free now none h = tt
free now (some t) h = ground arith

if_fresh : (b : Bool) → (if b then replayed else fresh) ≡ fresh → b ≡ false
if_fresh true h = cc
if_fresh false h = refl

claim_in_memory-IsHeld :
    (key : String) (now ttl : ℕ) (memory after : JsMap ℕ)
    → IsUnique memory
    → 1 ≤ ttl
    → claim_in_memory key now ttl memory ≡ (after, fresh)
    → IsFree now (get key memory) × IsHeld now (get key after)
claim_in_memory-IsHeld key now ttl memory after u lasts h =
    let (answered, unique, left) = claim_in_memory_lem key now ttl memory u in
    let not_held : is_held now (get key memory) ≡ false =
      if_fresh (is_held now (get key memory))
        (sym answered ∙ ap (λ (r : JsMap ℕ × ReplayClaimResult). r.1) h) in
    let kept : get key (claim_in_memory key now ttl memory).0 ≡ some (now + ttl) =
      left key ∙ (rw (eq_refl key, not_held) refl) in
    let stays : get key after ≡ some (now + ttl) =
      ap (λ (r : JsMap ℕ × ReplayClaimResult). get key r.0) (sym h) ∙ kept in
    (free now (get key memory) not_held, rw stays (omega arith))

three_tests :
    {A : Type 0} (on short inside : Bool) (w x y z r : A)
    → (if not on then w else if short then x else if inside then y else z) ≡ r
    → ((on ≡ false) × (w ≡ r)) ⊎ ((on ≡ true) × ((x ≡ r) ⊎ ((y ≡ r) ⊎ (z ≡ r))))
three_tests false short inside w x y z r h = inl (refl, h)
three_tests true true inside w x y z r h = inr (refl, inl h)
three_tests true false true w x y z r h = inr (refl, inr (inl h))
three_tests true false false w x y z r h = inr (refl, inr (inr h))

-- A claim that waits for the store has no answer yet, or that of a claim under way.
no_answer :
    (b : Bool) (s after : Service)
    → ◌≡◌ {A = Service × Option ReplayClaimResult}
        (s, if b then some replayed else none)
        (after, some fresh)
    → ⊥
no_answer true s after h = cc
no_answer false s after h = cc

in_memory-fresh :
    (s after : Service) (r : JsMap ℕ × ReplayClaimResult)
    → ◌≡◌ {A = Service × Option ReplayClaimResult}
        (record s { memory_replay = r.0 }, some r.1)
        (after, some fresh)
    → r ≡ (after.memory_replay, fresh)
in_memory-fresh s after (memory, result) h =
    let stays : ◌≡◌ {A = Service} (record s { memory_replay = memory }) after =
      ap (λ (p : Service × Option ReplayClaimResult). p.0) h in
    let new : result ≡ fresh = cc in rw (new, ap (λ (x : Service). x.memory_replay) stays) refl

module _ (env : Env) (assertion : Assertion) (id : String) (now : ℕ) (before after : Service) where
  pub claim-IsGuarded :
      IsUnique before.memory_replay
      → claim_route_assertion_replay env assertion id now before ≡ (after, some fresh)
      → IsGuarded env (replay_key assertion) now before after
  unfolding claim_route_assertion_replay
  claim-IsGuarded u h =
      let key = replay_key assertion in
      let ttl = replay_ttl assertion.exp env now in
      elim (three_tests (parse_boolean_like env.route_assert_verify_replay_enabled) (ttl == 0)
        (parse_boolean_like env.test_in_memory_kv || not env.has_inbox_kv) _ _ _ _ _ h) [
          | inl (off, same) ↦
              inl (off, sym (ap (λ (r : Service × Option ReplayClaimResult). r.0) same))
          | inr (on, rest) ↦ elim rest [
            | inl short ↦ absurd (clash before "replay_ttl_invalid" short)
            | inr longer ↦ elim longer [
              | inl inside ↦
                  let (was_free, holds) =
                    claim_in_memory-IsHeld key now ttl before.memory_replay after.memory_replay u
                      (replay_ttl-le assertion.exp env now).0
                      (in_memory-fresh before after
                        (claim_in_memory key now ttl before.memory_replay) inside) in
                  inr (on, was_free, holds)
              | inr waits ↦ absurd (
                  no_answer (has key before.world.local_claim_locks)
                    (record before { world = claim id key before.world }) after waits)
            ]
          ]
        ]
    where
      clash :
          (s : Service) (code : String)
          → ◌≡◌ {A = Service × Option ReplayClaimResult}
              (s, some (refused code))
              (after, some fresh)
          → ⊥
      clash s code e = cc
