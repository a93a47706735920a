-- ===== src/Sessions/Lifecycle.antt =====
-- src/runtime/sessions/lifecycle.ts: sessions that are created, read, rotated and revoked. The clock
-- and the identifier that the factory makes are arguments; a claim's value, which the code never
-- looks into, is of any type; a failure is its code, without the message for people. The store is InMemorySessionLifecycleStore; since it copies what it
-- takes and gives, its sessions are values.
pub mod Stores
pub mod Calls
pub mod Reads
mod Tests
use blackcat_darkmesh_gatewa.Text.{trim}
use blackcat_darkmesh_gatewa.Base.{
  ℕ, zero, suc, ◌+◌, ◌-◌, ◌*◌, ◌/◌, ◌%◌, ◌^◌, ◌≤◌, ◌<◌, min, max, ◌≡◌, refl, sym, ap, ◌∙◌, subst,
  ◌≢◌, ◌↔◌, ◌⊎◌, inl, inr, String, Bool, true, false, ◌&&◌, ◌||◌, not, Option, none, some, List, [],
  ◌∷◌, ◌++◌, map, ◌===◌, eq_iff, eq_refl, arith, ltb, leb, ◌==◌, if◌then◌else◌, is_some, or_else,
  option_map, Bool-cases, Option-cases, length, length-append, All, All-append, Any, leb→le, le→leb,
  ltb→lt, lt→ltb,
}
use blackcat_darkmesh_gatewa.JsMap.{
  JsMap, get, set, delete, has, size, first_key, delete_where, delete_oldest_while, IsUnique,
}

pub data SessionLifecycleStatus : Type 0 where
  active : SessionLifecycleStatus
  revoked : SessionLifecycleStatus
  rotated : SessionLifecycleStatus

pub data SessionLifecycleErrorCode : Type 0 where
  session_invalid_id : SessionLifecycleErrorCode
  session_invalid_subject : SessionLifecycleErrorCode
  session_invalid_ttl : SessionLifecycleErrorCode
  session_not_found : SessionLifecycleErrorCode
  session_expired : SessionLifecycleErrorCode
  session_revoked : SessionLifecycleErrorCode
  session_rotated : SessionLifecycleErrorCode

module _ (V : Type 0) where
  pub record SessionLifecycleSession : Type 0 where
    pub id : String
    pub subject : String
    pub created_at : ℕ
    pub expires_at : ℕ
    pub ttl_ms : ℕ
    pub status : SessionLifecycleStatus
    pub claims : JsMap V
    pub context : JsMap V
    pub revoked_at : Option ℕ
    pub rotated_at : Option ℕ
    pub rotated_from : Option String
    pub rotated_to : Option String

  pub record SessionLifecycleCreateInput : Type 0 where
    pub subject : String
    pub ttl_ms : Option ℕ
    pub claims : Option (JsMap V)
    pub context : Option (JsMap V)

  -- The `ok` results carry the session and the details of their operation.
  pub data Result (D : Type 0) : Type 0 where
    success : SessionLifecycleSession → D → Result D
    failure : SessionLifecycleErrorCode → Result D

  abbrev pub Store : Type 0
  Store = JsMap SessionLifecycleSession

abbrev pub default_ttl_ms : ℕ
default_ttl_ms = 1209600000

-- Times to live are whole numbers; what is no positive number is refused.
abbrev pub normalize_ttl_ms : Option ℕ → ℕ → Option ℕ
normalize_ttl_ms ttl_ms fallback =
    let raw = or_else ttl_ms fallback in if raw == 0 then none else some raw

module _ {V : Type 0} where
  -- The four tests that read, rotate and revoke share: the state in which a session is refused.
  unfoldable pub refusal : SessionLifecycleSession V → ℕ → Option SessionLifecycleErrorCode
  refusal session now = elim session.status [
    | revoked ↦ some session_revoked
    | rotated ↦ some session_rotated
    | active ↦ if leb session.expires_at now then some session_expired else none
  ]

  -- The session that an identifier names, or the failure: the tests that read, rotate and revoke share.
  unfoldable pub find : String → ℕ → Store V → Result V Unit
  unfolding refusal
  find session_id now store =
      let id = trim session_id in
      if id === "" then failure session_invalid_id else elim (get id store) [
        | none ↦ failure session_not_found
        | some session ↦ elim (refusal session now) [
          | none ↦ success session tt
          | some code ↦ failure code
        ]
      ]

  abbrev pub read_session : String → ℕ → Store V → Result V Unit
  read_session session_id now store = find session_id now store

  -- InMemorySessionLifecycleStore.set
  abbrev pub put_session : SessionLifecycleSession V → Store V → Store V
  put_session session store = set session.id session store

  abbrev pub new_session :
      SessionLifecycleCreateInput V → String → ℕ → String → ℕ → SessionLifecycleSession V
  new_session input subject ttl_ms id now = record {
    id = id;
    subject = subject;
    created_at = now;
    expires_at = now + ttl_ms;
    ttl_ms = ttl_ms;
    status = active;
    claims = or_else input.claims [];
    context = or_else input.context [];
    revoked_at = none;
    rotated_at = none;
    rotated_from = none;
    rotated_to = none;
  }

  -- `id` is what the factory makes, `default_ttl` the service's default.
  unfoldable pub create_session :
      ℕ → SessionLifecycleCreateInput V → String → ℕ → Store V → Store V × Result V Unit
  create_session default_ttl input id now store =
      let subject = trim input.subject in
      if subject === ""
      then (store, failure session_invalid_subject)
      else elim (normalize_ttl_ms input.ttl_ms default_ttl) [
        | none ↦ (store, failure session_invalid_ttl)
        | some ttl_ms ↦
            let session = new_session input subject ttl_ms id now in
            (put_session session store, success session tt)
      ]

  abbrev pub successor_of : SessionLifecycleSession V → String → ℕ → SessionLifecycleSession V
  successor_of current id now = record {
    id = id;
    subject = current.subject;
    created_at = now;
    expires_at = now + current.ttl_ms;
    ttl_ms = current.ttl_ms;
    status = active;
    claims = current.claims;
    context = current.context;
    revoked_at = none;
    rotated_at = none;
    rotated_from = some current.id;
    rotated_to = none;
  }

  abbrev pub rotated_into : SessionLifecycleSession V → String → ℕ → SessionLifecycleSession V
  rotated_into current id now = record current {
    status = rotated;
    rotated_at = some now;
    rotated_to = some id;
  }

  -- The details are the identifier of the session that was rotated.
  unfoldable pub rotate_session : String → String → ℕ → Store V → Store V × Result V String
  rotate_session session_id id now store = elim (find session_id now store) [
    | failure code ↦ (store, failure code)
    | success current _ ↦ (
      put_session (successor_of current id now) (put_session (rotated_into current id now) store),
      success (successor_of current id now) current.id,
    )
  ]

  abbrev pub revoked_at_time : SessionLifecycleSession V → ℕ → SessionLifecycleSession V
  revoked_at_time current now = record current { status = revoked; revoked_at = some now }

  -- The details are the status before.
  unfoldable pub revoke_session : String → ℕ → Store V → Store V × Result V SessionLifecycleStatus
  revoke_session session_id now store = elim (find session_id now store) [
    | failure code ↦ (store, failure code)
    | success current _ ↦ (
      put_session (revoked_at_time current now) store,
      success (revoked_at_time current now) current.status,
    )
  ]

  abbrev keep_subject :
      String → SessionLifecycleSession V → List (Result V Unit) → List (Result V Unit)
  keep_subject needle session rest =
      if session.subject === needle then success session tt ∷ rest else rest

  abbrev of_subject : String → Store V → List (Result V Unit)
  of_subject needle [] = []
  of_subject needle ((id, session) ∷ store) = keep_subject needle session (of_subject needle store)

  unfoldable pub list_by_subject : String → Store V → List (Result V Unit)
  list_by_subject subject store =
      let needle = trim subject in if needle === "" then [] else of_subject needle store
