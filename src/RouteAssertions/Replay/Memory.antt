-- ===== src/RouteAssertions/Replay/Memory.antt =====
-- Claims in the memory of the process, workers/secrets-worker/src/routeAssertionReplay.ts.
use blackcat_darkmesh_gatewa.RouteAssertions.Replay.{
  fresh, replayed, claim_in_memory, is_past, Env, replay_ttl, max_replay_ttl_sec,
}
use blackcat_darkmesh_gatewa.Base.{
  ℕ, ◌+◌, ◌≤◌, ◌≡◌, refl, inl, inr, String, Bool, true, false, ◌&&◌, not, Option, none, some, ◌===◌,
  eq_iff, arith, ltb, if◌then◌else◌, Bool-cases, Option-cases,
}
use blackcat_darkmesh_gatewa.JsMap.{JsMap, get, set, delete_where, IsUnique}
use blackcat_darkmesh_gatewa.JsMap.Laws.{get-set, set-IsUnique}
use blackcat_darkmesh_gatewa.JsMap.Sweeps.{get-delete_where, delete_where-IsUnique}

-- A key that is held until after `now`.
abbrev pub is_held : ℕ → Option ℕ → Bool
is_held now none = false
is_held now (some seen_until) = ltb now seen_until

abbrev swept : ℕ → JsMap ℕ → JsMap ℕ
swept now memory = (delete_where (is_past now) memory memory 0).0

claim_held :
    (key : String) (now ttl : ℕ) (memory : JsMap ℕ)
    → is_held now (get key (swept now memory)) ≡ true
    → claim_in_memory key now ttl memory ≡ (swept now memory, replayed)
unfolding claim_in_memory
claim_held key now ttl memory held = elim (Option-cases (get key (swept now memory))) [
  | inl e ↦ ground (arith, e, held)
  | inr (x, e) ↦ rw (e, claim_in_memory) (ground (arith, e, held))
]

claim_free :
    (key : String) (now ttl : ℕ) (memory : JsMap ℕ)
    → is_held now (get key (swept now memory)) ≡ false
    → claim_in_memory key now ttl memory ≡ (set key (now + ttl) (swept now memory), fresh)
unfolding claim_in_memory
claim_free key now ttl memory free = elim (Option-cases (get key (swept now memory))) [
  | inl e ↦ rw (e, claim_in_memory) refl
  | inr (x, e) ↦ rw (e, claim_in_memory) (ground (arith, e, free))
]

-- A claim in a memory with distinct keys is a replay exactly if its key is held until after now; then, and in any
-- case for other keys that are held until after now, the memory keeps the time, and a new claim is held for `ttl`.
pub claim_in_memory_lem :
    (key : String) (now ttl : ℕ) (memory : JsMap ℕ)
    → IsUnique memory
    → let (after, result) = claim_in_memory key now ttl memory in
      (result ≡ (if is_held now (get key memory) then replayed else fresh))
      × IsUnique after
      × ((j : String)
          → get j after ≡ (
              if (key === j) && not (is_held now (get key memory))
              then some (now + ttl)
              else if is_held now (get j memory)
              then get j memory
              else none))
claim_in_memory_lem key now ttl memory u =
    let rest = swept now memory in
    let unique : IsUnique rest = delete_where-IsUnique (is_past now) memory memory 0 u in
    let kept = λ (j : String). get-delete_where (is_past now) j memory 0 u in
    elim (Bool-cases (is_held now (get key rest))) [
      | inl held ↦
          rw (claim_held key now ttl memory held)
            (ground (arith, kept key, held), unique, λ j. ground (arith, kept key, kept j, held))
      | inr free ↦ rw (claim_free key now ttl memory free) (
        ground (arith, kept key, free),
        set-IsUnique key (now + ttl) rest unique,
        λ j. ground (arith, kept key, kept j, free, get-set key j (now + ttl) rest, eq_iff key j),
      )
    ]

-- The time to live is from one second to a day.
pub replay_ttl-le :
    (exp : ℕ) (env : Env) (now : ℕ)
    → (1 ≤ replay_ttl exp env now) × (replay_ttl exp env now ≤ max_replay_ttl_sec)
unfolding replay_ttl
replay_ttl-le exp env now = (ground arith, ground arith)
