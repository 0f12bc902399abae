-- ===== src/Sessions/Manager.antt =====
-- `TaskSessionManager`: the revocation of sessions and the bound on what is kept of them.
use agent_tab_bridge.Base.{
  ℕ, ◌-◌, Bool, true, false, Option, none, some, List, [], ◌∷◌, ◌++◌, leb, ◌==◌, if◌then◌else◌,
  length, take, nat_eq, list_eq, option_eq, pair_eq,
}
use agent_tab_bridge.Base.Maps.{lookup, insert, delete}
use agent_tab_bridge.Base.Results.{Result, ok, err}
use agent_tab_bridge.Base.Text.{Str, codes}
use agent_tab_bridge.Sessions.Types.{
  State, Session, Relay, Stored, SessionError, not_found, Event, Effect, emit, Manager,
  max_revoked_task_session_tombstones,
}
use agent_tab_bridge.Sessions.Entry.{tombstone, close_effects}

-- A method returns the manager that it leaves, and its result or exception.
abbrev pub Answer : Type 0 → Type 0
Answer A = Manager × Result {0, 0} SessionError A

abbrev pub store : Str → Stored → Manager → Manager
store id s m = record m { stored = insert id s m.stored }

abbrev pub append_log : List Effect → Manager → Manager
append_log es m = record m { log = m.log ++ es }

abbrev pub is_revoked : State → Bool
is_revoked State.revoked = true
is_revoked _ = false

abbrev pub revoked_entries : List (Str × Stored) → List (Str × Stored)
revoked_entries [] = []
revoked_entries ((id, s) ∷ m) =
    let rest = revoked_entries m in if is_revoked s.session.state then (id, s) ∷ rest else rest

-- The sort by creation time, which keeps the order of equal times.
abbrev place_by_age : Str × Stored → List (Str × Stored) → List (Str × Stored)
place_by_age (id, s) [] = (id, s) ∷ []
place_by_age (id, s) ((j, t) ∷ m) =
    if leb s.session.created_at t.session.created_at
    then (id, s) ∷ (j, t) ∷ m
    else (j, t) ∷ place_by_age (id, s) m

unfoldable pub sort_by_age : List (Str × Stored) → List (Str × Stored)
sort_by_age [] = []
sort_by_age (e ∷ m) = place_by_age e (sort_by_age m)

unfoldable pub delete_all : List (Str × Stored) → List (Str × Stored) → List (Str × Stored)
delete_all [] m = m
delete_all ((id, s) ∷ es) m = delete_all es (delete id m)

-- `compactRevoked`: the oldest tombstones go, down to the limit.
unfoldable pub compact_revoked : Manager → Manager
compact_revoked m =
    let revoked = revoked_entries m.stored in
    record m {
      stored =
          delete_all
            (take (length revoked - max_revoked_task_session_tombstones) (sort_by_age revoked))
            m.stored;
    }

abbrev pub reusable_key : Str → Str → Str × Str
reusable_key controller_principal_id stable_session_key =
    (controller_principal_id, stable_session_key)

-- `forgetReusableSession`.
unfoldable pub forget_reusable_session : Stored → Manager → Manager
forget_reusable_session s m = elim s.stable_session_key [
  | none ↦ m
  | some name ↦
      let key = reusable_key s.session.controller_principal_id name in
      if lookup key m.reusable_session_ids == some s.session.id
      then record m { reusable_session_ids = delete key m.reusable_session_ids }
      else m
]

-- The end of `revoke`: a relay is closed first, and the tombstones are compacted after that, in
-- `relay_closed`.
abbrev pub close_or_compact : Option Relay → Manager → Manager
close_or_compact none m = compact_revoked m
close_or_compact (some r) m = append_log (close_effects (some r)) m

-- The body of `revoke` for a session that is neither revoked nor being revoked.
unfoldable pub revoke_stored : Str → Stored → Str → Manager → Manager
revoke_stored id s reason m =
    let gone = tombstone s in
    close_or_compact s.relay (
      append_log (emit (Event.revoked gone.session reason) ∷ [])
        (forget_reusable_session s (store id gone m)))

unfoldable pub revoke_entry : Str → Option Stored → Str → Manager → Answer Session
revoke_entry id none reason m = (m, err not_found)
revoke_entry id (some s) reason m =
    if s.revoking
    then (m, ok s.session)
    else if is_revoked s.session.state
    then (m, ok s.session)
    else (revoke_stored id s reason m, ok (tombstone s).session)

-- `revoke`.
unfoldable pub revoke : Str → Str → Manager → Answer Session
unfolding revoke_entry
revoke id reason m = revoke_entry id (lookup id m.stored) reason m

-- The relay of a revoked session has been closed.
unfoldable pub relay_closed : Manager → Manager
relay_closed m = compact_revoked m

-- `revoke` of several sessions, one after the other.
unfoldable pub revoke_each : List Str → Str → Manager → Manager
revoke_each [] reason m = m
revoke_each (id ∷ ids) reason m = revoke_each ids reason (revoke id reason m).0

abbrev pub keys : List (Str × Stored) → List Str
keys [] = []
keys ((id, s) ∷ m) = id ∷ keys m

-- `revokeAll`.
unfoldable pub revoke_all : Str → Manager → Manager
unfolding revoke_each
revoke_all reason m = revoke_each (keys m.stored) reason m

abbrev pub is_expired : ℕ → Stored → Bool
is_expired now s =
    if is_revoked s.session.state
    then false
    else elim s.session.expires_at [ none ↦ false | some t ↦ leb t now ]

abbrev pub expired_keys : ℕ → List (Str × Stored) → List Str
expired_keys now [] = []
expired_keys now ((id, s) ∷ m) =
    let rest = expired_keys now m in if is_expired now s then s.session.id ∷ rest else rest

-- `sweepExpired`.
unfoldable pub sweep_expired : ℕ → Manager → Manager
unfolding revoke_each
sweep_expired now m = revoke_each (expired_keys now m.stored) (codes "ttlExpired") m
