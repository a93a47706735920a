-- ===== src/Sessions/Lifecycle/Stores.antt =====
-- The single operations of src/runtime/sessions/lifecycle.ts on a store that keeps each session under
-- its own identifier.
use blackcat_darkmesh_gatewa.Sessions.Lifecycle.{
  SessionLifecycleStatus, active, SessionLifecycleErrorCode, session_invalid_subject,
  session_invalid_ttl, SessionLifecycleSession, SessionLifecycleCreateInput, Result, success,
  failure, Store, refusal, find, put_session, create_session, rotate_session, revoke_session,
  successor_of, rotated_into, revoked_at_time, new_session, normalize_ttl_ms,
}
use blackcat_darkmesh_gatewa.Text.{trim}
use blackcat_darkmesh_gatewa.Base.{
  ℕ, ◌<◌, ◌≡◌, refl, ◌⊎◌, inl, inr, String, Bool, true, false, none, some, ◌===◌, eq_iff, eq_refl,
  arith, Bool-cases, Option-cases,
}
use blackcat_darkmesh_gatewa.JsMap.{get}
use blackcat_darkmesh_gatewa.JsMap.Laws.{get-set}

abbrev pub is_active : SessionLifecycleStatus → Bool
is_active active = true
is_active _ = false

module _ {V : Type 0} where
  abbrev pub IsKeyed : Store V → Type 0
  IsKeyed store = (k : String) (c : SessionLifecycleSession V) → get k store ≡ some c → c.id ≡ k

  -- A session that is found is stored, runs, and is not refused.
  pub find_success :
      (session_id : String) (now : ℕ) (store : Store V) (c : SessionLifecycleSession V)
      → find session_id now store ≡ success c tt
      → (get (trim session_id) store ≡ some c)
        × (is_active c.status ≡ true)
        × (now < c.expires_at)
        × ((trim session_id === "") ≡ false)
  unfolding find refusal
  find_success session_id now store c found = elim (Option-cases (get (trim session_id) store)) [
    | inl e ↦ ground arith
    | inr (d, e) ↦ ground arith
  ]

  pub find_stored :
      (session_id : String) (now : ℕ) (store : Store V) (c : SessionLifecycleSession V)
      → get (trim session_id) store ≡ some c
      → (trim session_id === "") ≡ false
      → find session_id now store
        ≡ elim (refusal c now) [ none ↦ success c tt | some code ↦ failure code ]
  unfolding find
  find_stored session_id now store c held named = ground arith

  pub find_live :
      (session_id : String) (now : ℕ) (store : Store V) (c : SessionLifecycleSession V)
      → get (trim session_id) store ≡ some c
      → (trim session_id === "") ≡ false
      → is_active c.status ≡ true
      → now < c.expires_at
      → find session_id now store ≡ success c tt
  unfolding find refusal
  find_live session_id now store c held named runs before = ground arith

  pub put_session-IsKeyed :
      (c : SessionLifecycleSession V) (store : Store V)
      → IsKeyed store
      → IsKeyed (put_session c store)
  put_session-IsKeyed c store keyed k d held =
      ground (arith, keyed k d, get-set c.id k c store, eq_iff c.id k)

  pub Result-cases :
      (r : Result V Unit)
      → ((c : SessionLifecycleSession V) × (r ≡ success c tt))
        ⊎ ((code : SessionLifecycleErrorCode) × (r ≡ failure code))
  Result-cases (success c tt) = inl (c, refl)
  Result-cases (failure code) = inr (code, refl)

  pub rotate_found :
      (session_id id : String) (now : ℕ) (store : Store V) (c : SessionLifecycleSession V)
      → find session_id now store ≡ success c tt
      → rotate_session session_id id now store ≡ (
        put_session (successor_of c id now) (put_session (rotated_into c id now) store),
        success (successor_of c id now) c.id,
      )
  unfolding rotate_session
  rotate_found session_id id now store c found = rw (found, rotate_session) refl

  pub rotate_refused :
      (session_id id : String) (now : ℕ) (store : Store V) (code : SessionLifecycleErrorCode)
      → find session_id now store ≡ failure code
      → rotate_session session_id id now store ≡ (store, failure code)
  unfolding rotate_session
  rotate_refused session_id id now store code found = rw (found, rotate_session) refl

  pub revoke_found :
      (session_id : String) (now : ℕ) (store : Store V) (c : SessionLifecycleSession V)
      → find session_id now store ≡ success c tt
      → revoke_session session_id now store
        ≡ (put_session (revoked_at_time c now) store, success (revoked_at_time c now) c.status)
  unfolding revoke_session
  revoke_found session_id now store c found = rw (found, revoke_session) refl

  pub revoke_refused :
      (session_id : String) (now : ℕ) (store : Store V) (code : SessionLifecycleErrorCode)
      → find session_id now store ≡ failure code
      → revoke_session session_id now store ≡ (store, failure code)
  unfolding revoke_session
  revoke_refused session_id now store code found = rw (found, revoke_session) refl

  -- Creating puts one new session or changes nothing.
  pub create-cases :
      (default_ttl : ℕ) (input : SessionLifecycleCreateInput V) (id : String) (now : ℕ)
      (store : Store V)
      → ((ttl_ms : ℕ) × (create_session default_ttl input id now store ≡ (
        put_session (new_session input (trim input.subject) ttl_ms id now) store,
        success (new_session input (trim input.subject) ttl_ms id now) tt,
      )))
        ⊎ ((code : SessionLifecycleErrorCode) × (create_session default_ttl input id now store
              ≡ (store, failure code)))
  unfolding create_session
  create-cases default_ttl input id now store = elim (Bool-cases (trim input.subject === "")) [
    | inl e ↦ inr (session_invalid_subject, rw (e, create_session) refl)
    | inr e ↦ elim (Option-cases (normalize_ttl_ms input.ttl_ms default_ttl)) [
      | inl n ↦ inr (session_invalid_ttl, rw (e, n, create_session) refl)
      | inr (ttl_ms, n) ↦ inl (ttl_ms, rw (e, n, create_session) refl)
    ]
  ]

  pub find_put :
      (c : SessionLifecycleSession V) (now : ℕ) (store : Store V)
      → trim c.id ≡ c.id
      → (c.id === "") ≡ false
      → is_active c.status ≡ true
      → now < c.expires_at
      → find c.id now (put_session c store) ≡ success c tt
  find_put c now store trimmed named runs before =
      find_live c.id now (put_session c store) c
        (ground (arith, trimmed, get-set c.id (trim c.id) c store, eq_refl c.id)) (rw trimmed named)
        runs before
