-- ===== src/Sessions/Invariant.antt =====
-- Soundness of stored sessions over the calls and callbacks of src/companion/task-sessions.ts.
use agent_tab_bridge.Base.{
  ℕ, ◌-◌, ◌≡◌, refl, sym, ◌∙◌, true, false, ◌&&◌, Option, none, some, List, [], ◌∷◌, ◌==◌, length,
  take, list_eq, nat_eq, pair_eq, eq_refl, arith, Bool-cases, inl, inr, subst, if_ind, option_ind,
}
use agent_tab_bridge.Base.Maps.{
  lookup, delete, lookup-insert, lookup-delete, Every, Every-insert, Every-delete,
}
use agent_tab_bridge.Base.Text.{Str, codes}
use agent_tab_bridge.Base.Results.{Result, ok, err}
use agent_tab_bridge.Access.Defs.{Platform, Access}
use agent_tab_bridge.Sessions.Types.{
  State, Session, Relay, Approval, rejected, Stored, Manager, SessionError, not_found,
}
use agent_tab_bridge.Sessions.Entry.{approved, with_relay, with_access, is_live, resumed, tombstone}
use agent_tab_bridge.Sessions.Manager.{
  Answer, store, is_revoked, delete_all, compact_revoked, revoked_entries, sort_by_age,
  forget_reusable_session, close_or_compact, revoke_stored, revoke_entry, revoke, relay_closed,
  revoke_each, revoke_all, sweep_expired, keys, expired_keys,
}
use agent_tab_bridge.Sessions.Operations.{
  Checked, create, remember, find_existing, reuse_or_create, open_checked, forget_named,
  check_input, open_session, new_stored,
}
use agent_tab_bridge.Sessions.Life.{
  approve_entry, approve, reject, relay_started_entry, relay_started, relay_start_failed,
  relay_ready_entry, relay_ready, begin_recovery, relay_failed_entry, relay_failed, suspend_entries,
  suspend, fire_timer, fire_recovery_timer, revoke_named, revoke_found, set_access, approved_access,
  apply_access_upgrade, is_pending, is_starting, named_key, SessionResult, awaits_relay, due,
}
use agent_tab_bridge.Sessions.Steps.{
  IsSound, new_stored-IsSound, approved-IsSound, with_relay-IsSound, resumed-IsSound,
  begin_recovery-IsSound, tombstone-IsSound, with_access-IsSound, rejected-IsSound, Call, step, run,
  new_manager, opens, approves, relay_starts, relay_start_fails, relay_readies, relay_fails,
  suspends, timer_fires, recovery_timer_fires, revokes, revokes_named, revokes_all, sweeps_expired,
  relay_closes, upgrades,
}

-- Every stored session is sound.
abbrev pub AllSound : Manager → Type 0
AllSound m = Every IsSound m.stored

abbrev SessionLeft : Answer Session → Type 0
SessionLeft a = AllSound a.0

store-AllSound :
    (id : Str) (s : Stored) (m : Manager) → AllSound m → IsSound id s → AllSound (store id s m)
store-AllSound id s m v w = Every-insert IsSound id s m.stored v w

delete_all-Every :
    (P : Str → Stored → Type 0) (es m : List (Str × Stored)) → Every P m → Every P (delete_all es m)
unfolding delete_all
delete_all-Every P [] m v = v
delete_all-Every P ((id, s) ∷ es) m v = delete_all-Every P es (delete id m) (Every-delete P id m v)

compact_revoked-AllSound : (m : Manager) → AllSound m → AllSound (compact_revoked m)
unfolding compact_revoked
compact_revoked-AllSound m v =
    let revoked = revoked_entries m.stored in
    delete_all-Every IsSound (take (length revoked - 64) (sort_by_age revoked)) m.stored v

pub forget-stored : (s : Stored) (m : Manager) → (forget_reusable_session s m).stored ≡ m.stored
unfolding forget_reusable_session
forget-stored s m = ground arith

close_or_compact-AllSound :
    (r : Option Relay) (m : Manager) → AllSound m → AllSound (close_or_compact r m)
close_or_compact-AllSound none m v = compact_revoked-AllSound m v
close_or_compact-AllSound (some r) m v = v

revoke_stored-AllSound :
    (id : Str) (s : Stored) (reason : Str) (m : Manager)
    → IsSound id s
    → AllSound m
    → AllSound (revoke_stored id s reason m)
unfolding revoke_stored
revoke_stored-AllSound id s reason m w v = close_or_compact-AllSound s.relay _ (
    rw (forget-stored s (store id (tombstone s) m))
      (store-AllSound id (tombstone s) m v (tombstone-IsSound id s w)))

revoke_entry-AllSound :
    (id : Str) (o : Option Stored) (reason : Str) (m : Manager)
    → lookup id m.stored ≡ o
    → AllSound m
    → AllSound (revoke_entry id o reason m).0
unfolding revoke_entry
revoke_entry-AllSound id none reason m e v = v
revoke_entry-AllSound id (some s) reason m e v =
    if_ind SessionLeft s.revoking (λ h. v)
      λ h.
        if_ind SessionLeft (is_revoked s.session.state) (λ k. v)
          λ k. revoke_stored-AllSound id s reason m (v id s e) v

revoke-AllSound : (id reason : Str) (m : Manager) → AllSound m → AllSound (revoke id reason m).0
unfolding revoke
revoke-AllSound id reason m v = revoke_entry-AllSound id (lookup id m.stored) reason m refl v

revoke_each-AllSound :
    (ids : List Str) (reason : Str) (m : Manager) → AllSound m → AllSound (revoke_each ids reason m)
unfolding revoke_each
revoke_each-AllSound [] reason m v = v
revoke_each-AllSound (id ∷ ids) reason m v =
    revoke_each-AllSound ids reason (revoke id reason m).0 (revoke-AllSound id reason m v)

pub remember-stored :
    (key : Option Str) (principal id : Str) (m : Manager)
    → (remember key principal id m).stored ≡ m.stored
remember-stored none principal id m = refl
remember-stored (some name) principal id m = refl

create-AllSound :
    (now : ℕ) (id : Str) (c : Checked) (m : Manager) → AllSound m → AllSound (create now id c m).0
unfolding create
create-AllSound now id c m v =
    option_ind SessionLeft (lookup id m.stored)
      (λ free.
        rw
          (remember-stored c.stable_session_key c.controller_principal_id id
            (store id (new_stored now id c) m))
          (store-AllSound id (new_stored now id c) m v (new_stored-IsSound now id c)))
      (λ s taken. v)

reuse_or_create-AllSound :
    (now : ℕ) (id : Str) (c : Checked) (o : Option Stored) (m : Manager)
    → AllSound m
    → AllSound (reuse_or_create now id c o m).0
unfolding reuse_or_create
reuse_or_create-AllSound now id c none m v = create-AllSound now id c (forget_named c m) v
reuse_or_create-AllSound now id c (some s) m v =
    if_ind SessionLeft (is_revoked s.session.state)
      (λ h. create-AllSound now id c (forget_named c m) v) (λ h. v)

open_checked-AllSound :
    (now : ℕ) (id : Str) (r : Result SessionError Checked) (m : Manager)
    → AllSound m
    → AllSound (open_checked now id r m).0
open_checked-AllSound now id (err e) m v = v
open_checked-AllSound now id (ok c) m v = reuse_or_create-AllSound now id c (find_existing c m) m v

abbrev ApprovalLeft : Answer Approval → Type 0
ApprovalLeft a = AllSound a.0

approve_entry-AllSound :
    (id : Str) (o : Option Stored) (m : Manager)
    → lookup id m.stored ≡ o
    → AllSound m
    → AllSound (approve_entry id o m).0
unfolding approve_entry
approve_entry-AllSound id none m e v = v
approve_entry-AllSound id (some s) m e v =
    if_ind ApprovalLeft (is_pending s.session.state)
      (λ h. store-AllSound id (approved s) m v (approved-IsSound id s h (v id s e)))
      (λ h. option_ind ApprovalLeft s.approval (λ k. v) (λ a k. v))

reject-AllSound :
    (id : Str) (o : Option Stored) (m : Manager)
    → ((s : Stored) → o ≡ some s → (is_pending s.session.state ≡ false) × IsSound id s)
    → AllSound m
    → AllSound (reject id o m)
unfolding reject
reject-AllSound id none m h v = v
reject-AllSound id (some s) m h v =
    let (p, w) = h s refl in
    store-AllSound id (record s { approval = some rejected }) m v (rejected-IsSound id s p w)

revoked-not_pending : (s : State) → is_revoked s ≡ true → is_pending s ≡ false
revoked-not_pending s h = ground arith

relay_started_entry-AllSound :
    (id : Str) (r : Relay) (o : Option Stored) (m : Manager)
    → lookup id m.stored ≡ o
    → AllSound m
    → AllSound (relay_started_entry id r o m)
unfolding relay_started_entry
relay_started_entry-AllSound id r none m e v = v
relay_started_entry-AllSound id r (some s) m e v =
    if_ind AllSound (is_starting s.approval)
      (λ h.
        if_ind AllSound (is_revoked s.session.state)
          (λ k.
            store-AllSound id (record s { approval = some rejected }) m v
              (rejected-IsSound id s (revoked-not_pending s.session.state k) (v id s e)))
          (λ k. store-AllSound id (with_relay r s) m v (with_relay-IsSound id r s h k (v id s e))))
      (λ h. v)

relay_ready_entry-AllSound :
    (id : Str) (o : Option Stored) (m : Manager)
    → lookup id m.stored ≡ o
    → AllSound m
    → AllSound (relay_ready_entry id o m).0
unfolding relay_ready_entry
relay_ready_entry-AllSound id none m e v = v
relay_ready_entry-AllSound id (some s) m e v =
    option_ind SessionLeft s.relay (λ h. v)
      λ r h.
        if_ind SessionLeft (is_live s.session.state)
          (λ k. store-AllSound id (resumed s) m v (resumed-IsSound id r s h k (v id s e))) (λ k. v)

relay_failed_entry-AllSound :
    (now : ℕ) (id reason : Str) (o : Option Stored) (m : Manager)
    → lookup id m.stored ≡ o
    → AllSound m
    → AllSound (relay_failed_entry now id reason o m).0
unfolding relay_failed_entry
relay_failed_entry-AllSound now id reason none m e v = v
relay_failed_entry-AllSound now id reason (some s) m e v =
    if_ind SessionLeft (s.ready && is_live s.session.state)
      (λ h.
        store-AllSound id (begin_recovery now s) m v (begin_recovery-IsSound id now s (v id s e)))
      (λ h. revoke-AllSound id reason m v)

pub lookup-suspend_entries :
    (now : ℕ) (id : Str) (m : List (Str × Stored))
    → lookup id (suspend_entries now m)
      ≡ (elim (lookup id m) [ none ↦ none | some s ↦ some (begin_recovery now s) ])
unfolding lookup suspend_entries
lookup-suspend_entries now id [] = refl
lookup-suspend_entries now id ((j, s) ∷ m) = elim (Bool-cases (j == id)) [
  | inl h ↦ rw h
  | inr h ↦ rw h (lookup-suspend_entries now id m)
]

suspend-AllSound : (now : ℕ) (m : Manager) → AllSound m → AllSound (suspend now m).0
unfolding suspend
suspend-AllSound now m v id s h = go (lookup id m.stored) refl (rw lookup-suspend_entries at h)
  where
    go :
        (o : Option Stored)
        → lookup id m.stored ≡ o
        → ◌≡◌ {A = Option Stored}
            (elim o [ none ↦ none | some t ↦ some (begin_recovery now t) ])
            (some s)
        → IsSound id s
    go none e h = cc
    go (some t) e h =
        let same : begin_recovery now t ≡ s = cc h in
        subst (IsSound id) same (begin_recovery-IsSound id now t (v id t e))

revoke_found-AllSound :
    (key : Str × Str) (id reason : Str) (m : Manager)
    → AllSound m
    → AllSound (revoke_found key id reason m).0
revoke_found-AllSound key id reason m v =
    option_ind SessionLeft (lookup id m.stored) (λ h. v)
      λ s h.
        if_ind SessionLeft (is_revoked s.session.state) (λ k. v)
          (λ k. revoke-AllSound id reason m v)

revoke_named-AllSound :
    (principal name reason : Str) (m : Manager)
    → AllSound m
    → AllSound (revoke_named principal name reason m).0
unfolding revoke_named
revoke_named-AllSound principal name reason m v = go (named_key principal name)
  where
    go :
        (r : SessionResult (Str × Str))
        → AllSound
            (elim r as (λ _. Answer Session) [
              | err e ↦ (m, err e)
              | ok key ↦ elim (lookup key m.reusable_session_ids) [
                | none ↦ (m, err not_found)
                | some id ↦ revoke_found key id reason m
              ]
            ]).0
    go (err e) = v
    go (ok key) =
        option_ind SessionLeft (lookup key m.reusable_session_ids) (λ h. v)
          (λ id h. revoke_found-AllSound key id reason m v)

set_access-AllSound :
    (id : Str) (s : Stored) (r : SessionResult Access) (m : Manager)
    → lookup id m.stored ≡ some s
    → AllSound m
    → AllSound (set_access id s r m).0
set_access-AllSound id s (err e) m h v = v
set_access-AllSound id s (ok a) m h v =
    store-AllSound id (with_access a s) m v (with_access-IsSound id a s (v id s h))

-- Deleting entries finds nothing new.
pub lookup-delete_all :
    (es m : List (Str × Stored)) (id : Str) (s : Stored)
    → lookup id (delete_all es m) ≡ some s
    → lookup id m ≡ some s
unfolding delete_all
lookup-delete_all [] m id s h = h
lookup-delete_all ((j, t) ∷ es) m id s h =
    let found = lookup-delete_all es (delete j m) id s h in
    elim (Bool-cases (j == id)) [
      | inl e ↦ cc (rw (lookup-delete j id m, e) at found)
      | inr e ↦ rw (lookup-delete j id m, e) at found
    ]

-- Whatever is still stored under the identifier is revoked.
abbrev pub IsGone : Str → Manager → Type 0
IsGone id m = (s : Stored) → lookup id m.stored ≡ some s → s.session.state ≡ State.revoked

compact_revoked-IsGone : (id : Str) (m : Manager) → IsGone id m → IsGone id (compact_revoked m)
unfolding compact_revoked
compact_revoked-IsGone id m g s h =
    let revoked = revoked_entries m.stored in
    g s (lookup-delete_all (take (length revoked - 64) (sort_by_age revoked)) m.stored id s h)

close_or_compact-IsGone :
    (r : Option Relay) (id : Str) (m : Manager) → IsGone id m → IsGone id (close_or_compact r m)
close_or_compact-IsGone none id m g = compact_revoked-IsGone id m g
close_or_compact-IsGone (some r) id m g = g

store-IsGone :
    (id : Str) (s : Stored) (m : Manager)
    → s.session.state ≡ State.revoked
    → IsGone id (store id s m)
store-IsGone id s m e t h =
    let same : s ≡ t = cc (rw (lookup-insert id id s m.stored, eq_refl id) at h) in
    subst (λ u. u.session.state ≡ State.revoked) same e

tombstone-revoked : (s : Stored) → (tombstone s).session.state ≡ State.revoked
unfolding tombstone
tombstone-revoked s = refl

revoke_stored-IsGone :
    (id : Str) (s : Stored) (reason : Str) (m : Manager) → IsGone id (revoke_stored id s reason m)
unfolding revoke_stored
revoke_stored-IsGone id s reason m = close_or_compact-IsGone s.relay id _ (
    rw (forget-stored s (store id (tombstone s) m))
      (store-IsGone id (tombstone s) m (tombstone-revoked s)))

abbrev GoneLeft : Str → Answer Session → Type 0
GoneLeft id a = IsGone id a.0

entry-IsGone :
    (id : Str) (s : Stored) (m : Manager)
    → lookup id m.stored ≡ some s
    → s.session.state ≡ State.revoked
    → IsGone id m
entry-IsGone id s m e r t h =
    let same : s ≡ t = cc (sym e ∙ h) in subst (λ u. u.session.state ≡ State.revoked) same r

revoke-IsGone : (id reason : Str) (m : Manager) → AllSound m → IsGone id (revoke id reason m).0
unfolding revoke
revoke-IsGone id reason m v = go (lookup id m.stored) refl
  where
    go : (o : Option Stored) → lookup id m.stored ≡ o → IsGone id (revoke_entry id o reason m).0
    go none e = unfold revoke_entry in (λ s h. cc (sym e ∙ h))
    go (some s) e =
        unfold revoke_entry in
        (if_ind (GoneLeft id) s.revoking
          (λ h. entry-IsGone id s m e ((v id s e).revoking_revoked h))
          λ h.
            if_ind (GoneLeft id) (is_revoked s.session.state)
              (λ k. entry-IsGone id s m e (ground arith)) (λ k. revoke_stored-IsGone id s reason m))

relay_start_failed-AllSound :
    (id : Str) (m : Manager) → AllSound m → AllSound (relay_start_failed id m)
unfolding relay_start_failed
relay_start_failed-AllSound id m v =
    let reason = codes "relayStartFailed" in
    let m' = (revoke id reason m).0 in
    let w = revoke-AllSound id reason m v in
    if_ind AllSound (awaits_relay (lookup id m.stored))
      (λ h.
        reject-AllSound id (lookup id m'.stored) m'
          (λ s e.
            (revoked-not_pending _ (ground (arith, revoke-IsGone id reason m v s e)), w id s e))
          w)
      (λ h. v)

fire_timer-AllSound :
    (now : ℕ) (id : Str) (m : Manager) → AllSound m → AllSound (fire_timer now id m)
unfolding fire_timer
fire_timer-AllSound now id m v =
    option_ind AllSound (lookup id m.stored) (λ h. v)
      λ s h.
        if_ind AllSound (due now s.timer) (λ k. revoke-AllSound id (codes "ttlExpired") m v)
          (λ k. v)

fire_recovery_timer-AllSound :
    (now : ℕ) (id : Str) (m : Manager) → AllSound m → AllSound (fire_recovery_timer now id m)
unfolding fire_recovery_timer
fire_recovery_timer-AllSound now id m v =
    option_ind AllSound (lookup id m.stored) (λ h. v)
      λ s h.
        if_ind AllSound (due now s.recovery_timer)
          (λ k. revoke-AllSound id (codes "relayRecoveryExpired") m v) (λ k. v)

-- Every call and every callback keeps every stored session sound.
pub step-AllSound :
    (pf : Platform) (m : Manager) (c : ℕ × Call) → AllSound m → AllSound (step pf m c)
unfolding step open_session approve relay_started relay_ready relay_failed revoke_all sweep_expired
    relay_closed apply_access_upgrade
step-AllSound pf m (now, opens options id input) v =
    open_checked-AllSound now id (check_input pf options input) m v
step-AllSound pf m (now, approves id) v = approve_entry-AllSound id (lookup id m.stored) m refl v
step-AllSound pf m (now, relay_starts id r) v =
    relay_started_entry-AllSound id r (lookup id m.stored) m refl v
step-AllSound pf m (now, relay_start_fails id) v = relay_start_failed-AllSound id m v
step-AllSound pf m (now, relay_readies id) v =
    relay_ready_entry-AllSound id (lookup id m.stored) m refl v
step-AllSound pf m (now, relay_fails id reason) v =
    relay_failed_entry-AllSound now id reason (lookup id m.stored) m refl v
step-AllSound pf m (now, suspends) v = suspend-AllSound now m v
step-AllSound pf m (now, timer_fires id) v = fire_timer-AllSound now id m v
step-AllSound pf m (now, recovery_timer_fires id) v = fire_recovery_timer-AllSound now id m v
step-AllSound pf m (now, revokes id reason) v = revoke-AllSound id reason m v
step-AllSound pf m (now, revokes_named principal name reason) v =
    revoke_named-AllSound principal name reason m v
step-AllSound pf m (now, revokes_all reason) v = revoke_each-AllSound (keys m.stored) reason m v
step-AllSound pf m (now, sweeps_expired) v =
    revoke_each-AllSound (expired_keys now m.stored) (codes "ttlExpired") m v
step-AllSound pf m (now, relay_closes) v = compact_revoked-AllSound m v
step-AllSound pf m (now, upgrades id delta expected) v =
    option_ind SessionLeft (lookup id m.stored) (λ h. v)
      (λ s h. set_access-AllSound id s (approved_access pf s delta expected) m h v)

run-AllSound :
    (pf : Platform) (m : Manager) (cs : List (ℕ × Call)) → AllSound m → AllSound (run pf m cs)
unfolding run
run-AllSound pf m [] v = v
run-AllSound pf m (c ∷ cs) v = run-AllSound pf (step pf m c) cs (step-AllSound pf m c v)

new_manager-AllSound : AllSound new_manager
unfolding lookup
new_manager-AllSound id s h = cc

-- Every session that a manager stores, after any calls and callbacks in any order from the start,
-- is sound.
pub stored_session-IsSound :
    (pf : Platform) (cs : List (ℕ × Call)) (id : Str) (s : Stored)
    → lookup id (run pf new_manager cs).stored ≡ some s
    → IsSound id s
stored_session-IsSound pf cs id s h = run-AllSound pf new_manager cs new_manager-AllSound id s h

-- After any calls and callbacks, `revoke` leaves the session revoked if it is still stored, whatever
-- state it found it in.
pub revoke-leaves_revoked :
    (pf : Platform) (cs : List (ℕ × Call)) (id reason : Str) (s : Stored)
    → lookup id (revoke id reason (run pf new_manager cs)).0.stored ≡ some s
    → s.session.state ≡ State.revoked
revoke-leaves_revoked pf cs id reason s h =
    revoke-IsGone id reason (run pf new_manager cs)
      (run-AllSound pf new_manager cs new_manager-AllSound) s h
