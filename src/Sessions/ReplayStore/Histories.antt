-- ===== src/Sessions/ReplayStore/Histories.antt =====
-- Sequences of `markAndCheck` calls of src/runtime/sessions/replayStore.ts, against the history of
-- the calls. A history lists the calls with the latest first.
use blackcat_darkmesh_gatewa.Base.{
  ℕ, ◌+◌, ◌≤◌, ◌<◌, ◌≡◌, refl, sym, ◌∙◌, ◌⊎◌, inl, inr, String, true, Option, none, some, List, [],
  ◌∷◌, ◌===◌, eq_iff, arith, ltb, is_some, Bool-cases, length, Any, All,
}
use blackcat_darkmesh_gatewa.JsMap.{get, size}
use blackcat_darkmesh_gatewa.Sessions.ReplayStore.{
  ReplayStore, ReplayStoreOptions, init, byte_length, mark_and_check,
}
use blackcat_darkmesh_gatewa.Sessions.ReplayStore.Steps.{IsValid, live}
use blackcat_darkmesh_gatewa.Sessions.ReplayStore.Marks.{
  options-mark_and_check, mark_and_check-IsValid, mark_and_check-replay, mark_and_check_long,
  get-mark_and_check_other, live-mark_and_check_room, size-mark_and_check-le,
}

pub record Call : Type 0 where
  pub key : String
  pub at : ℕ

-- The store after the calls.
unfoldable pub after : ReplayStore → List Call → ReplayStore
after s [] = s
after s (c ∷ earlier) = (mark_and_check (after s earlier) c.key c.at).0

module _ (s : ReplayStore) where
  pub options-after : (calls : List Call) → (after s calls).options ≡ s.options
  unfolding after
  options-after [] = refl
  options-after (c ∷ earlier) =
      ground (arith, options-mark_and_check (after s earlier) c.key c.at, options-after earlier)

  pub after-IsValid : (calls : List Call) → IsValid s → IsValid (after s calls)
  unfolding after
  after-IsValid [] v = v
  after-IsValid (c ∷ earlier) v =
      mark_and_check-IsValid (after s earlier) c.key c.at (after-IsValid earlier v)

  pub size-after-le : (calls : List Call) → size (after s calls).seen ≤ size s.seen + length calls
  unfolding after
  size-after-le [] = omega arith
  size-after-le (c ∷ earlier) =
      omega (arith, size-mark_and_check-le (after s earlier) c.key c.at, size-after-le earlier)

-- The call was for this key, within the byte limit, and its mark runs until `e`.
abbrev pub Marked : ReplayStoreOptions → String → ℕ → Call → Type 0
Marked o key e c = (c.key ≡ key) × (c.at + o.ttl_ms ≡ e)

pub init-IsValid : (o : ReplayStoreOptions) → 0 < o.max_keys → IsValid (init o)
init-IsValid o room = ground arith

-- What the last call does to the time held for a key: it is the old one, or the call marked it.
mark_and_check_origin :
    (s : ReplayStore) (c : Call) (key : String) (e : ℕ)
    → IsValid s
    → get key (mark_and_check s c.key c.at).0.seen ≡ some e
    → Marked s.options key e c ⊎ (get key s.seen ≡ some e)
mark_and_check_origin s c key e v held = elim (Bool-cases (c.key === key)) [
  | inl same ↦
      let same_key : c.key ≡ key = (eq_iff c.key key).0 same in
      elim (Bool-cases (ltb s.options.key_max_bytes (byte_length c.key))) [
        | inl long ↦ inr (ground (arith, mark_and_check_long s c.key c.at))
        | inr short ↦ inl (ground (arith, mark_and_check-replay s c.key c.at))
      ]
  | inr other ↦ inr (ground (arith, get-mark_and_check_other s c.key c.at key v other))
]

-- Every time that the store holds for a key comes from a call for that key.
pub after-Any-Marked :
    (o : ReplayStoreOptions) (calls : List Call) (key : String) (e : ℕ)
    → 0 < o.max_keys
    → get key (after (init o) calls).seen ≡ some e
    → Any (Marked o key e) calls
unfolding after get
after-Any-Marked o [] key e room held = cc
after-Any-Marked o (c ∷ earlier) key e room held =
    elim (mark_and_check_origin (after (init o) earlier) c key e
      (after-IsValid (init o) earlier (init-IsValid o room)) held) [
        | inl marked ↦ inl (rw (← options-after (init o) earlier) marked)
        | inr old ↦ inr (after-Any-Marked o earlier key e room old)
      ]

-- The call was for this key, and its mark still runs at `now`.
abbrev pub RunsAt : ReplayStoreOptions → String → ℕ → Call → Type 0
RunsAt o key now c = (c.key ≡ key) × (now < c.at + o.ttl_ms)

Any-RunsAt :
    (o : ReplayStoreOptions) (key : String) (now e : ℕ) (calls : List Call)
    → now < e
    → Any (Marked o key e) calls
    → Any (RunsAt o key now) calls
Any-RunsAt o key now e [] ahead m = m
Any-RunsAt o key now e (c ∷ earlier) ahead (inl m) = inl (m.0, omega (arith, m.1))
Any-RunsAt o key now e (c ∷ earlier) ahead (inr m) = inr (Any-RunsAt o key now e earlier ahead m)

live-some :
    (now : ℕ) (o : Option ℕ) → is_some (live now o) ≡ true → (e : ℕ) × (o ≡ some e) × (now < e)
live-some now none h = cc
live-some now (some e) h = (e, refl, ground arith)

-- No false alarm. After any calls on a new store with a positive capacity, a key within the byte
-- limit is called a replay only if one of the calls was for that key, and less than `ttlMs` ago.
pub replay_was_marked :
    (o : ReplayStoreOptions) (calls : List Call) (key : String) (now : ℕ)
    → 0 < o.max_keys
    → byte_length key ≤ o.key_max_bytes
    → (mark_and_check (after (init o) calls) key now).1.replay ≡ true
    → Any (RunsAt o key now) calls
replay_was_marked o calls key now room short replay =
    let s = after (init o) calls in
    let v = after-IsValid (init o) calls (init-IsValid o room) in
    let fits : byte_length key ≤ s.options.key_max_bytes =
      rw (options-after (init o) calls) short in
    let answer = (mark_and_check-replay s key now fits v).0 in
    let (e, held, ahead) = live-some now (get key s.seen) (sym answer ∙ replay) in
    Any-RunsAt o key now e calls ahead (after-Any-Marked o calls key e room held)

-- The store holds the key until `bound` at least.
abbrev HoldsUntil : ReplayStore → String → ℕ → Type 0
HoldsUntil s key bound = (e : ℕ) × (get key s.seen ≡ some e) × (bound ≤ e)

-- A call at a time before `bound`, with room in the store, keeps a mark that runs until `bound`.
mark_and_check-HoldsUntil :
    (s : ReplayStore) (c : Call) (key : String) (bound : ℕ)
    → IsValid s
    → size s.seen < s.options.max_keys
    → c.at < bound
    → bound ≤ c.at + s.options.ttl_ms
    → HoldsUntil s key bound
    → HoldsUntil (mark_and_check s c.key c.at).0 key bound
mark_and_check-HoldsUntil s c key bound v room before reach (e, held, runs) =
    elim (Bool-cases (c.key === key)) [
      | inl same ↦
          let same_key : c.key ≡ key = (eq_iff c.key key).0 same in
          elim (Bool-cases (ltb s.options.key_max_bytes (byte_length c.key))) [
            | inl long ↦ (e, ground (arith, mark_and_check_long s c.key c.at), runs)
            | inr short ↦
                (c.at + s.options.ttl_ms, ground (arith, mark_and_check-replay s c.key c.at), reach)
          ]
      | inr other ↦
          (e, ground (arith, live-mark_and_check_room s c.key c.at key v room other), runs)
    ]

-- The calls came at times from `start` on and before `start + ttlMs`.
abbrev pub InWindow : ReplayStoreOptions → ℕ → Call → Type 0
InWindow o start c = (start ≤ c.at) × (c.at < start + o.ttl_ms)

after-HoldsUntil :
    (s : ReplayStore) (calls : List Call) (key : String) (start : ℕ)
    → IsValid s
    → size s.seen + length calls ≤ s.options.max_keys
    → All (InWindow s.options start) calls
    → HoldsUntil s key (start + s.options.ttl_ms)
    → HoldsUntil (after s calls) key (start + s.options.ttl_ms)
unfolding after
after-HoldsUntil s [] key start v room w h = h
after-HoldsUntil s (c ∷ earlier) key start v room (w, ws) h =
    let t = after s earlier in
    let same = options-after s earlier in
    mark_and_check-HoldsUntil t c key (start + s.options.ttl_ms) (after-IsValid s earlier v)
      (rw same (omega (arith, size-after-le s earlier))) w.1 (rw same (omega arith))
      (after-HoldsUntil s earlier key start v (omega arith) ws h)

-- No replay is missed. Once a key within the byte limit is marked at `start` in a valid store, and
-- then any calls come inside its time window, as many as the capacity leaves room for, a second
-- call for the key inside the window is answered as a replay.
pub replay_is_found :
    (s : ReplayStore) (key : String) (start now : ℕ) (calls : List Call)
    → let marked = (mark_and_check s key start).0 in
      IsValid s
      → byte_length key ≤ s.options.key_max_bytes
      → size marked.seen + length calls ≤ s.options.max_keys
      → All (InWindow s.options start) calls
      → now < start + s.options.ttl_ms
      → (mark_and_check (after marked calls) key now).1.replay ≡ true
replay_is_found s key start now calls v short room w ahead =
    let marked = (mark_and_check s key start).0 in
    let same = options-mark_and_check s key start in
    let same' = options-after marked calls ∙ same in
    let v' = mark_and_check-IsValid s key start v in
    let first = (mark_and_check-replay s key start short v).2 in
    let (e, held, runs) =
      after-HoldsUntil marked calls key start v' (rw same room) (rw same w)
        (start + s.options.ttl_ms, first, rw same (omega arith)) in
    let answer =
      mark_and_check-replay (after marked calls) key now (rw same' short)
        (after-IsValid marked calls v') in
    ground (arith, answer, held, same)
