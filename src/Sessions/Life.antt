-- ===== src/Sessions/Life.antt =====
-- `TaskSessionManager`: approval, the relay's coming and going, named sessions and access upgrades.
use agent_tab_bridge.Base.{
  ℕ, Bool, true, false, not, ◌&&◌, Option, none, some, List, [], ◌∷◌, ◌++◌, leb, if◌then◌else◌,
  nat_eq, list_eq, pair_eq,
}
use agent_tab_bridge.Base.Maps.{lookup, delete}
use agent_tab_bridge.Base.Results.{Result, ok, err, ◌>>=◌, ◌>>◌, throw_if}
use agent_tab_bridge.Base.Text.{Str, codes}
use agent_tab_bridge.Access.Defs.{
  Platform, Access, AccessError, Delta, same_session_access, upgrade_session_access,
}
use agent_tab_bridge.Sessions.Types.{
  State, Session, Relay, Approval, rejected, Stored, SessionError, invalid_session, not_pending,
  not_active, not_found, session_conflict, Event, Effect, emit, start_relay, close_relay, Manager,
  is_stable_session_key,
}
use agent_tab_bridge.Sessions.Entry.{
  approved, with_relay, is_reconnecting, is_live, resumed, resume_effects, recovering, with_access,
}
use agent_tab_bridge.Sessions.Manager.{Answer, store, append_log, is_revoked, reusable_key, revoke}
use agent_tab_bridge.Sessions.Operations.{text, find_named}

abbrev pub is_pending : State → Bool
is_pending State.pending = true
is_pending _ = false

abbrev pub is_active : State → Bool
is_active State.active = true
is_active _ = false

abbrev is_some {ℓ} : {A : Type ℓ} → Option A → Bool
is_some none = false
is_some (some a) = true

-- `approve`, up to the wait for the relay. A session that is not pending has the promise of its
-- first approval, or none.
unfoldable pub approve_entry : Str → Option Stored → Manager → Answer Approval
approve_entry id none m = (m, err not_found)
approve_entry id (some s) m =
    if is_pending s.session.state
    then (append_log (start_relay id ∷ []) (store id (approved s) m), ok Approval.starting)
    else elim s.approval [ none ↦ (m, err not_pending) | some a ↦ (m, ok a) ]

unfoldable pub approve : Str → Manager → Answer Approval
unfolding approve_entry
approve id m = approve_entry id (lookup id m.stored) m

-- The promise of an approval is rejected.
unfoldable pub reject : Str → Option Stored → Manager → Manager
reject id none m = m
reject id (some s) m = store id (record s { approval = some rejected }) m

abbrev pub is_starting : Option Approval → Bool
is_starting (some Approval.starting) = true
is_starting _ = false

-- The relay has started, which the promise of one approval waits for, once. If the session was
-- revoked meanwhile, the relay is closed again.
unfoldable pub relay_started_entry : Str → Relay → Option Stored → Manager → Manager
unfolding reject
relay_started_entry id r none m = append_log (close_relay r ∷ []) m
relay_started_entry id r (some s) m =
    if is_starting s.approval
    then if is_revoked s.session.state
      then append_log (close_relay r ∷ []) (reject id (some s) m)
      else store id (with_relay r s) m
    else m

unfoldable pub relay_started : Str → Relay → Manager → Manager
unfolding relay_started_entry
relay_started id r m = relay_started_entry id r (lookup id m.stored) m

abbrev pub awaits_relay : Option Stored → Bool
awaits_relay none = false
awaits_relay (some s) = is_starting s.approval

-- The relay could not be started, for which the same promise waits.
unfoldable pub relay_start_failed : Str → Manager → Manager
relay_start_failed id m =
    if awaits_relay (lookup id m.stored)
    then (let m' = (revoke id (codes "relayStartFailed") m).0 in reject id (lookup id m'.stored) m')
    else m

-- `relayReady`.
unfoldable pub relay_ready_entry : Str → Option Stored → Manager → Answer Session
relay_ready_entry id none m = (m, err not_found)
relay_ready_entry id (some s) m = elim s.relay [
  | none ↦ (m, err not_active)
  | some r ↦
      if is_live s.session.state
      then (append_log (resume_effects r s) (store id (resumed s) m), ok (resumed s).session)
      else (m, err not_active)
]

unfoldable pub relay_ready : Str → Manager → Answer Session
unfolding relay_ready_entry
relay_ready id m = relay_ready_entry id (lookup id m.stored) m

-- `beginRecovery` changes active sessions only.
abbrev pub begin_recovery : ℕ → Stored → Stored
begin_recovery now s = if is_active s.session.state then recovering now s else s

abbrev pub recovery_effects : ℕ → Stored → List Effect
recovery_effects now s =
    if is_active s.session.state
    then emit (Event.reconnecting (recovering now s).session) ∷ []
    else []

-- `relayFailed`: a session that is ready, or suspended already, is given time to recover.
unfoldable pub relay_failed_entry : ℕ → Str → Str → Option Stored → Manager → Answer Session
relay_failed_entry now id reason none m = (m, err not_found)
relay_failed_entry now id reason (some s) m =
    if s.ready && is_live s.session.state
    then (
      append_log (recovery_effects now s) (store id (begin_recovery now s) m),
      ok (begin_recovery now s).session,
    )
    else revoke id reason m

unfoldable pub relay_failed : ℕ → Str → Str → Manager → Answer Session
unfolding relay_failed_entry
relay_failed now id reason m = relay_failed_entry now id reason (lookup id m.stored) m

unfoldable pub suspend_entries : ℕ → List (Str × Stored) → List (Str × Stored)
suspend_entries now [] = []
suspend_entries now ((id, s) ∷ m) = (id, begin_recovery now s) ∷ suspend_entries now m

abbrev suspend_log : ℕ → List (Str × Stored) → List Effect
suspend_log now [] = []
suspend_log now ((id, s) ∷ m) = recovery_effects now s ++ suspend_log now m

abbrev suspend_answer : ℕ → List (Str × Stored) → List Session
suspend_answer now [] = []
suspend_answer now ((id, s) ∷ m) =
    let rest = suspend_answer now m in
    if is_live s.session.state then (begin_recovery now s).session ∷ rest else rest

-- `suspend`.
unfoldable pub suspend : ℕ → Manager → Manager × List Session
unfolding suspend_entries
suspend now m = (
  record m { stored = suspend_entries now m.stored; log = m.log ++ suspend_log now m.stored },
  suspend_answer now m.stored,
)

abbrev pub due : ℕ → Option ℕ → Bool
due now none = false
due now (some t) = leb t now

-- The callbacks of the two timers, which `none` has disarmed.
unfoldable pub fire_timer : ℕ → Str → Manager → Manager
fire_timer now id m = elim (lookup id m.stored) [
  | none ↦ m
  | some s ↦ if due now s.timer then (revoke id (codes "ttlExpired") m).0 else m
]

unfoldable pub fire_recovery_timer : ℕ → Str → Manager → Manager
fire_recovery_timer now id m = elim (lookup id m.stored) [
  | none ↦ m
  | some s ↦ if due now s.recovery_timer then (revoke id (codes "relayRecoveryExpired") m).0 else m
]

abbrev pub SessionResult : Type 0 → Type 0
SessionResult A = Result {0, 0} SessionError A

-- The key under which a caller's name is kept.
abbrev pub named_key : Str → Str → SessionResult (Str × Str)
named_key principal name = do
  throw_if (not (is_stable_session_key name)) invalid_session
  p ← text 256 principal
  ok (reusable_key p name)

abbrev pub revoke_found : (Str × Str) → Str → Str → Manager → Answer Session
revoke_found key id reason m =
    let gone : Answer Session =
      (record m { reusable_session_ids = delete key m.reusable_session_ids }, err not_found) in
    elim (lookup id m.stored) [
      | none ↦ gone
      | some s ↦ if is_revoked s.session.state then gone else revoke id reason m
    ]

-- `revokeNamed`.
unfoldable pub revoke_named : Str → Str → Str → Manager → Answer Session
revoke_named principal name reason m = elim (named_key principal name) [
  | err e ↦ (m, err e)
  | ok key ↦ elim (lookup key m.reusable_session_ids) [
    | none ↦ (m, err not_found)
    | some id ↦ revoke_found key id reason m
  ]
]

abbrev pub live_session : Option Stored → SessionResult Session
live_session none = err not_found
live_session (some s) = if is_live s.session.state then ok s.session else err not_found

-- `requireNamed`, and `getNamed` with it.
unfoldable pub get_named : Str → Str → Manager → SessionResult Session
get_named principal name m = do
  key ← named_key principal name
  live_session (find_named key.0 key.1 m)

abbrev pub lift_upgrade {ℓ} : {A : Type ℓ} → Result {0, ℓ} AccessError A → Result SessionError A
lift_upgrade (ok a) = ok a
lift_upgrade (err e) = err invalid_session

-- `previewAccessUpgrade`.
unfoldable pub preview_access_upgrade :
    Platform → Str → Str → Delta → Manager → SessionResult (Session × Access)
preview_access_upgrade pf principal name delta m = do
  session ← get_named principal name m
  access ← lift_upgrade (upgrade_session_access pf session.access delta)
  ok (session, access)

-- The access that `applyAccessUpgrade` would set: the upgrade is computed again, and must be the
-- one that was approved.
unfoldable pub approved_access : Platform → Stored → Delta → Access → SessionResult Access
approved_access pf s delta expected = do
  throw_if (not (is_active s.session.state)) not_active
  access ← lift_upgrade (upgrade_session_access pf s.session.access delta)
  throw_if (not (same_session_access access expected)) session_conflict
  ok access

abbrev pub set_access : Str → Stored → SessionResult Access → Manager → Answer Session
set_access id s (err e) m = (m, err e)
set_access id s (ok a) m = (store id (with_access a s) m, ok (with_access a s).session)

-- `applyAccessUpgrade`.
unfoldable pub apply_access_upgrade : Platform → Str → Delta → Access → Manager → Answer Session
apply_access_upgrade pf id delta expected m = elim (lookup id m.stored) [
  | none ↦ (m, err not_found)
  | some s ↦ set_access id s (approved_access pf s delta expected) m
]

-- `get`.
unfoldable pub get_session : Str → Manager → Option Session
get_session id m = elim (lookup id m.stored) [ none ↦ none | some s ↦ some s.session ]

abbrev live_sessions : List (Str × Stored) → List Session
live_sessions [] = []
live_sessions ((id, s) ∷ m) =
    let rest = live_sessions m in if is_revoked s.session.state then rest else s.session ∷ rest

-- `snapshot`.
unfoldable pub snapshot : Manager → List Session
snapshot m = live_sessions m.stored

abbrev relay_cdp_url : Option Relay → Option Str
relay_cdp_url none = none
relay_cdp_url (some r) = some r.cdp_url

abbrev relay_pairing_url : Option Relay → Option Str
relay_pairing_url none = none
relay_pairing_url (some r) = some r.pairing_url

-- `cdpUrl`: only while the session is active and its relay ready.
unfoldable pub cdp_url : Str → Manager → Option Str
cdp_url id m = elim (lookup id m.stored) [
  | none ↦ none
  | some s ↦ if s.ready && is_active s.session.state then relay_cdp_url s.relay else none
]

-- `pairingUrl`: only while the session is suspended.
unfoldable pub pairing_url : Str → Manager → Option Str
pairing_url id m = elim (lookup id m.stored) [
  | none ↦ none
  | some s ↦ if is_reconnecting s.session.state then relay_pairing_url s.relay else none
]

-- `isReusable`.
unfoldable pub is_reusable : Str → Manager → Bool
is_reusable id m = elim (lookup id m.stored) [
  | none ↦ false
  | some s ↦ is_some s.stable_session_key && not (is_revoked s.session.state)
]
