-- ===== src/Sessions/Evolution.antt =====
-- The change of one stored session in one step of src/companion/task-sessions.ts.
use agent_tab_bridge.Base.{
  ℕ, ◌≡◌, ◌⊎◌, refl, sym, ◌∙◌, Bool, true, false, ◌&&◌, Option, none, some, List, ◌==◌,
  if◌then◌else◌, list_eq, nat_eq, pair_eq, arith, Bool-cases, inl, inr, subst, if_ind, option_ind,
  eq_iff,
}
use agent_tab_bridge.Base.Maps.{lookup, lookup-insert}
use agent_tab_bridge.Base.Results.{Result, ok, err}
use agent_tab_bridge.Base.Text.{Str, codes}
use agent_tab_bridge.Access.Defs.{Platform, Access, Delta, upgrade_session_access}
use agent_tab_bridge.Access.Upgrade.{same_session_access-eq}
use agent_tab_bridge.Sessions.Types.{
  State, Session, Relay, Approval, rejected, Stored, Manager, SessionError, not_found,
}
use agent_tab_bridge.Sessions.Entry.{
  approved, with_relay, with_access, is_live, is_reconnecting, resumed, recovering, tombstone,
  changed,
}
use agent_tab_bridge.Sessions.Manager.{
  Answer, store, keys, expired_keys, is_revoked, compact_revoked, revoke, relay_closed, revoke_each,
  revoke_all, sweep_expired,
}
use agent_tab_bridge.Sessions.Operations.{
  Checked, create, find_existing, reuse_or_create, open_checked, forget_named, check_input,
  open_session, new_stored,
}
use agent_tab_bridge.Sessions.Life.{
  approve_entry, approve, reject, relay_started_entry, relay_started, relay_start_failed,
  relay_ready_entry, relay_ready, begin_recovery, relay_failed_entry, relay_failed, suspend,
  fire_timer, fire_recovery_timer, revoke_named, revoke_found, set_access, approved_access,
  apply_access_upgrade, is_pending, is_active, is_starting, named_key, SessionResult, awaits_relay,
  due,
}
use agent_tab_bridge.Sessions.Invariant.{lookup-suspend_entries, remember-stored}
use agent_tab_bridge.Sessions.Steps.{
  Call, step, opens, approves, relay_starts, relay_start_fails, relay_readies, relay_fails,
  suspends, timer_fires, recovery_timer_fires, revokes, revokes_named, revokes_all, sweeps_expired,
  relay_closes, upgrades,
}
use agent_tab_bridge.Sessions.Edges.{
  stays, approves_it, suspends_it, resumes_it, revokes_it, Back, Back-refl, insert-Back,
  is_pending_eq, is_active_eq, is_reconnecting_eq, MayGo, close_or_compact-Back, revoke-Back,
  revoke_each-Back, Edge, Evolves,
}

module _ (pf : Platform) (c : Call) where
  -- The relation at one call.
  abbrev Ev : Str → Stored → Stored → Type 0
  Ev id s t = Evolves pf id c s t

  Ev-refl : (id : Str) (s : Stored) → Ev id s s
  Ev-refl id s = record { edge = stays; same_session = refl; same_access = inl refl }

  Ev-state :
      (id : Str) (s t : Stored)
      → Edge id c s.session.state t.session.state
      → t.session ≡ record s.session { state = t.session.state }
      → Ev id s t
  Ev-state id s t e h = record { edge = e; same_session = cc; same_access = inl (ground arith) }

  MayGo-Ev : (id : Str) (s t : Stored) → MayGo id s t → Ev id s t
  unfolding tombstone
  MayGo-Ev id s t (inl e) = rw e (Ev-refl id s)
  MayGo-Ev id s t (inr e) = rw e (Ev-state id s (tombstone s) revokes_it refl)

  MayGo-Back : (m m' : Manager) → Back MayGo m.stored m'.stored → Back Ev m.stored m'.stored
  MayGo-Back m m' b id t h = let (s, hs, r) = b id t h in (s, hs, MayGo-Ev id s t r)

  store-Back :
      (id : Str) (s t : Stored) (m : Manager)
      → lookup id m.stored ≡ some s
      → Ev id s t
      → Back Ev m.stored (store id t m).stored
  store-Back id s t m e r = insert-Back Ev Ev-refl id s t m.stored e r

  same-Back : (m : Manager) → Back Ev m.stored m.stored
  same-Back m = Back-refl Ev Ev-refl m.stored

  -- A step that goes back to the manager, by the result of a method.
  abbrev From : Manager → Answer Session → Type 0
  From m a = Back Ev m.stored a.0.stored

  abbrev FromApproval : Manager → Answer Approval → Type 0
  FromApproval m a = Back Ev m.stored a.0.stored

  abbrev FromManager : Manager → Manager → Type 0
  FromManager m m' = Back Ev m.stored m'.stored

  approve-Back : (id : Str) (m : Manager) → c ≡ approves id → FromApproval m (approve id m)
  unfolding approve
  approve-Back id m e = go (lookup id m.stored) refl
    where
      go : (o : Option Stored) → lookup id m.stored ≡ o → FromApproval m (approve_entry id o m)
      go none h = unfold approve_entry in (same-Back m)
      go (some s) h =
          unfold approve_entry approved in
          (if_ind (FromApproval m) (is_pending s.session.state)
            (λ p. store-Back id s (approved s) m h (record {
              edge =
                  subst (λ x. Edge id c x State.active) (sym (is_pending_eq s.session.state p))
                    (approves_it e);
              same_session = refl;
              same_access = inl refl;
            }))
            (λ p. option_ind (FromApproval m) s.approval (λ k. same-Back m) (λ a k. same-Back m)))

  with_relay-Ev : (id : Str) (r : Relay) (s : Stored) → Ev id s (with_relay r s)
  unfolding with_relay
  with_relay-Ev id r s = record { edge = stays; same_session = refl; same_access = inl refl }

  rejected-Ev : (id : Str) (s : Stored) → Ev id s (record s { approval = some rejected })
  rejected-Ev id s = record { edge = stays; same_session = refl; same_access = inl refl }

  relay_started-Back : (id : Str) (r : Relay) (m : Manager) → FromManager m (relay_started id r m)
  unfolding relay_started
  relay_started-Back id r m = go (lookup id m.stored) refl
    where
      go :
          (o : Option Stored)
          → lookup id m.stored ≡ o
          → FromManager m (relay_started_entry id r o m)
      go none h = unfold relay_started_entry in (same-Back m)
      go (some s) h =
          unfold relay_started_entry reject in
          (if_ind (FromManager m) (is_starting s.approval)
            (λ k.
              if_ind (FromManager m) (is_revoked s.session.state)
                (λ _.
                  store-Back id s (record s { approval = some rejected }) m h (rejected-Ev id s))
                (λ _. store-Back id s (with_relay r s) m h (with_relay-Ev id r s)))
            (λ k. same-Back m))

  resumed-Ev : (id : Str) (s : Stored) → c ≡ relay_readies id → Ev id s (resumed s)
  unfolding resumed
  resumed-Ev id s e = go (is_reconnecting s.session.state) (is_reconnecting_eq s.session.state)
    where
      go :
          (b : Bool)
          → (b ≡ true → s.session.state ≡ State.reconnecting)
          → Ev id s (record s {
            session = if b then changed s.session State.active else s.session;
            ready = true;
            recovery_timer = none;
          })
      go true h = record {
        edge = subst (λ x. Edge id c x State.active) (sym (h refl)) (resumes_it e);
        same_session = refl;
        same_access = inl refl;
      }
      go false h = record { edge = stays; same_session = refl; same_access = inl refl }

  relay_ready-Back : (id : Str) (m : Manager) → c ≡ relay_readies id → From m (relay_ready id m)
  unfolding relay_ready
  relay_ready-Back id m e = go (lookup id m.stored) refl
    where
      go : (o : Option Stored) → lookup id m.stored ≡ o → From m (relay_ready_entry id o m)
      go none h = unfold relay_ready_entry in (same-Back m)
      go (some s) h =
          unfold relay_ready_entry in
          (option_ind (From m) s.relay (λ k. same-Back m)
            λ r k.
              if_ind (From m) (is_live s.session.state)
                (λ _. store-Back id s (resumed s) m h (resumed-Ev id s e)) (λ _. same-Back m))

  begin_recovery-Ev : (now : ℕ) (id : Str) (s : Stored) → Ev id s (begin_recovery now s)
  begin_recovery-Ev now id s =
      if_ind (Ev id s) (is_active s.session.state)
        (λ h.
          unfold recovering in
          (record {
            edge =
                subst (λ x. Edge id c x State.reconnecting) (sym (is_active_eq s.session.state h))
                  suspends_it;
            same_session = refl;
            same_access = inl refl;
          }))
        (λ h. Ev-refl id s)

  revoke-From : (id reason : Str) (m : Manager) → From m (revoke id reason m)
  revoke-From id reason m = MayGo-Back m (revoke id reason m).0 (revoke-Back id reason m)

  relay_failed-Back :
      (now : ℕ) (id reason : Str) (m : Manager) → From m (relay_failed now id reason m)
  unfolding relay_failed
  relay_failed-Back now id reason m = go (lookup id m.stored) refl
    where
      go :
          (o : Option Stored)
          → lookup id m.stored ≡ o
          → From m (relay_failed_entry now id reason o m)
      go none h = unfold relay_failed_entry in (same-Back m)
      go (some s) h =
          unfold relay_failed_entry in
          (if_ind (From m) (s.ready && is_live s.session.state)
            (λ k. store-Back id s (begin_recovery now s) m h (begin_recovery-Ev now id s))
            (λ k. revoke-From id reason m))

  suspend-Back : (now : ℕ) (m : Manager) → FromManager m (suspend now m).0
  unfolding suspend
  suspend-Back now m id t h = go (lookup id m.stored) refl (rw lookup-suspend_entries at h)
    where
      go :
          (o : Option Stored)
          → lookup id m.stored ≡ o
          → ◌≡◌ {A = Option Stored}
              (elim o [ none ↦ none | some s ↦ some (begin_recovery now s) ])
              (some t)
          → (s : Stored) × (lookup id m.stored ≡ some s) × Ev id s t
      go none e h = cc
      go (some s) e h =
          let same : begin_recovery now s ≡ t = cc h in
          (s, e, subst (Ev id s) same (begin_recovery-Ev now id s))

  abbrev SameSession : Str → Stored → Stored → Type 0
  SameSession id s t = t.session ≡ s.session

  reject-Same :
      (id : Str) (m : Manager) → Back SameSession m.stored (reject id (lookup id m.stored) m).stored
  reject-Same id m = go (lookup id m.stored) refl
    where
      go :
          (o : Option Stored)
          → lookup id m.stored ≡ o
          → Back SameSession m.stored (reject id o m).stored
      go none h = unfold reject in (Back-refl SameSession (λ _ _. refl) m.stored)
      go (some s) h =
          unfold reject in
          (insert-Back SameSession (λ _ _. refl) id s (record s { approval = some rejected })
            m.stored h refl)

  Ev-same : (id : Str) (s t u : Stored) → Ev id s t → u.session ≡ t.session → Ev id s u
  Ev-same id s t u e h = record {
    edge = subst (λ x. Edge id c s.session.state x.state) (sym h) e.edge;
    same_session =
        subst (λ x. x ≡ record s.session { state = x.state; access = x.access }) (sym h)
          e.same_session;
    same_access =
        subst
          (λ x.
            (x.access ≡ s.session.access)
            ⊎ ((delta : Delta) × (expected : Access) × (c ≡ upgrades id delta expected)
                × (s.session.state ≡ State.active)
                × (upgrade_session_access pf s.session.access delta ≡ ok x.access)
                × (x.access ≡ expected)))
          (sym h) e.same_access;
  }

  relay_start_failed-Back : (id : Str) (m : Manager) → FromManager m (relay_start_failed id m)
  unfolding relay_start_failed
  relay_start_failed-Back id m =
      let m' = (revoke id (codes "relayStartFailed") m).0 in
      if_ind (FromManager m) (awaits_relay (lookup id m.stored))
        (λ h j u k.
          let (t, ht, same) = reject-Same id m' j u k in
          let (s, hs, r) = revoke-From id (codes "relayStartFailed") m j t ht in
          (s, hs, Ev-same j s t u r same))
        (λ h. same-Back m)

  timer-Back :
      (b : Bool) (id reason : Str) (m : Manager)
      → FromManager m (if b then (revoke id reason m).0 else m)
  timer-Back true id reason m = revoke-From id reason m
  timer-Back false id reason m = same-Back m

  fire_timer-Back : (now : ℕ) (id : Str) (m : Manager) → FromManager m (fire_timer now id m)
  unfolding fire_timer
  fire_timer-Back now id m =
      option_ind (FromManager m) (lookup id m.stored) (λ h. same-Back m)
        (λ s h. timer-Back (due now s.timer) id (codes "ttlExpired") m)

  fire_recovery_timer-Back :
      (now : ℕ) (id : Str) (m : Manager) → FromManager m (fire_recovery_timer now id m)
  unfolding fire_recovery_timer
  fire_recovery_timer-Back now id m =
      option_ind (FromManager m) (lookup id m.stored) (λ h. same-Back m)
        (λ s h. timer-Back (due now s.recovery_timer) id (codes "relayRecoveryExpired") m)

  revoke_found-Back :
      (key : Str × Str) (id reason : Str) (m : Manager) → From m (revoke_found key id reason m)
  revoke_found-Back key id reason m =
      option_ind (From m) (lookup id m.stored) (λ h. same-Back m)
        λ s h.
          if_ind (From m) (is_revoked s.session.state) (λ k. same-Back m)
            (λ k. revoke-From id reason m)

  revoke_named-Back :
      (principal name reason : Str) (m : Manager) → From m (revoke_named principal name reason m)
  unfolding revoke_named
  revoke_named-Back principal name reason m = go (named_key principal name)
    where
      go :
          (r : SessionResult (Str × Str))
          → From m (elim r as (λ _. Answer Session) [
            | err e ↦ (m, err e)
            | ok key ↦ elim (lookup key m.reusable_session_ids) [
              | none ↦ (m, err not_found)
              | some id ↦ revoke_found key id reason m
            ]
          ])
      go (err e) = same-Back m
      go (ok key) =
          option_ind (From m) (lookup key m.reusable_session_ids) (λ h. same-Back m)
            (λ id h. revoke_found-Back key id reason m)

  approved_access-inv :
      (s : Stored) (delta : Delta) (expected a : Access)
      → approved_access pf s delta expected ≡ ok a
      → (s.session.state ≡ State.active)
        × (upgrade_session_access pf s.session.access delta ≡ ok a)
        × (a ≡ expected)
  unfolding approved_access
  approved_access-inv s delta expected a h =
      (ground arith, ground arith, same_session_access-eq a expected (ground arith))

  upgrade-Back :
      (id : Str) (delta : Delta) (expected : Access) (m : Manager)
      → c ≡ upgrades id delta expected
      → From m (apply_access_upgrade pf id delta expected m)
  unfolding apply_access_upgrade
  upgrade-Back id delta expected m e =
      option_ind (From m) (lookup id m.stored) (λ h. same-Back m)
        (λ s h. go s h (approved_access pf s delta expected) refl)
    where
      go :
          (s : Stored)
          → lookup id m.stored ≡ some s
          → (r : SessionResult Access) → approved_access pf s delta expected ≡ r
          → From m (set_access id s r m)
      go s h (err x) k = same-Back m
      go s h (ok a) k =
          let (active', upgraded, agreed) = approved_access-inv s delta expected a k in
          store-Back id s (with_access a s) m h (record {
            edge = stays;
            same_session = refl;
            same_access = inr (delta, expected, e, active', upgraded, agreed);
          })

  -- `open` leaves every session that is stored as it is.
  abbrev Kept : Manager → Answer Session → Type 0
  Kept m a =
      (id : Str) (s t : Stored)
      → lookup id m.stored ≡ some s
      → lookup id a.0.stored ≡ some t
      → Ev id s t

  same-Kept :
      (m : Manager) (id : Str) (s t : Stored)
      → lookup id m.stored ≡ some s
      → lookup id m.stored ≡ some t
      → Ev id s t
  same-Kept m id s t h k = let same : s ≡ t = cc (sym h ∙ k) in subst (Ev id s) same (Ev-refl id s)

  create-Kept : (now : ℕ) (id : Str) (k : Checked) (m : Manager) → Kept m (create now id k m)
  unfolding create
  create-Kept now id k m =
      option_ind (Kept m) (lookup id m.stored)
        (λ free j s t h g. elim (Bool-cases (id == j)) [
          | inl e ↦
              cc (sym free ∙ subst (λ x. lookup x m.stored ≡ some s) (sym ((eq_iff id j).0 e)) h)
          | inr e ↦ same-Kept m j s t h (
              rw (lookup-insert id j (new_stored now id k) m.stored, e) at
                (rw
                  (remember-stored k.stable_session_key k.controller_principal_id id
                    (store id (new_stored now id k) m))
                  at g))
        ])
        (λ x taken. same-Kept m)

  reuse_or_create-Kept :
      (now : ℕ) (id : Str) (k : Checked) (o : Option Stored) (m : Manager)
      → Kept m (reuse_or_create now id k o m)
  unfolding reuse_or_create
  reuse_or_create-Kept now id k none m = create-Kept now id k (forget_named k m)
  reuse_or_create-Kept now id k (some s) m =
      if_ind (Kept m) (is_revoked s.session.state) (λ h. create-Kept now id k (forget_named k m))
        (λ h. same-Kept m)

  open_checked-Kept :
      (now : ℕ) (id : Str) (r : Result SessionError Checked) (m : Manager)
      → Kept m (open_checked now id r m)
  open_checked-Kept now id (err e) m = same-Kept m
  open_checked-Kept now id (ok k) m = reuse_or_create-Kept now id k (find_existing k m) m

  Kept_of_Back :
      (l l' : List (Str × Stored)) (id : Str) (s t : Stored)
      → Back Ev l l'
      → lookup id l ≡ some s
      → lookup id l' ≡ some t
      → Ev id s t
  Kept_of_Back l l' id s t b h k =
      let (s', h', r) = b id t k in
      let same : s' ≡ s = cc (sym h' ∙ h) in subst (λ x. Ev id x t) same r

-- In one step, whatever the call, a stored session that is still stored afterwards has moved along
-- an edge, keeps every field but its state and access, and has the same access or, under an approved
-- upgrade of the session while it was active, the access that the upgrade of its old one gives.
pub step-Evolves :
    (pf : Platform) (m : Manager) (now : ℕ) (c : Call) (id : Str) (s t : Stored)
    → lookup id m.stored ≡ some s
    → lookup id (step pf m (now, c)).stored ≡ some t
    → Evolves pf id c s t
unfolding step open_session revoke_all sweep_expired relay_closed compact_revoked
step-Evolves pf m now (opens options i input) id s t h k =
    open_checked-Kept pf (opens options i input) now i (check_input pf options input) m id s t h k
step-Evolves pf m now (approves i) id s t h k =
    Kept_of_Back pf (approves i) m.stored _ id s t (approve-Back pf (approves i) i m refl) h k
step-Evolves pf m now (relay_starts i r) id s t h k =
    Kept_of_Back pf (relay_starts i r) m.stored _ id s t
      (relay_started-Back pf (relay_starts i r) i r m) h k
step-Evolves pf m now (relay_start_fails i) id s t h k =
    Kept_of_Back pf (relay_start_fails i) m.stored _ id s t
      (relay_start_failed-Back pf (relay_start_fails i) i m) h k
step-Evolves pf m now (relay_readies i) id s t h k =
    Kept_of_Back pf (relay_readies i) m.stored _ id s t
      (relay_ready-Back pf (relay_readies i) i m refl) h k
step-Evolves pf m now (relay_fails i reason) id s t h k =
    Kept_of_Back pf (relay_fails i reason) m.stored _ id s t
      (relay_failed-Back pf (relay_fails i reason) now i reason m) h k
step-Evolves pf m now suspends id s t h k =
    Kept_of_Back pf suspends m.stored _ id s t (suspend-Back pf suspends now m) h k
step-Evolves pf m now (timer_fires i) id s t h k =
    Kept_of_Back pf (timer_fires i) m.stored _ id s t (fire_timer-Back pf (timer_fires i) now i m) h
      k
step-Evolves pf m now (recovery_timer_fires i) id s t h k =
    Kept_of_Back pf (recovery_timer_fires i) m.stored _ id s t
      (fire_recovery_timer-Back pf (recovery_timer_fires i) now i m) h k
step-Evolves pf m now (revokes i reason) id s t h k =
    Kept_of_Back pf (revokes i reason) m.stored _ id s t
      (revoke-From pf (revokes i reason) i reason m) h k
step-Evolves pf m now (revokes_named principal name reason) id s t h k =
    Kept_of_Back pf (revokes_named principal name reason) m.stored _ id s t
      (revoke_named-Back pf (revokes_named principal name reason) principal name reason m) h k
step-Evolves pf m now (revokes_all reason) id s t h k =
    let m' = revoke_each (keys m.stored) reason m in
    Kept_of_Back pf (revokes_all reason) m.stored m'.stored id s t
      (MayGo-Back pf (revokes_all reason) m m' (revoke_each-Back (keys m.stored) reason m)) h k
step-Evolves pf m now sweeps_expired id s t h k =
    let m' = revoke_each (expired_keys now m.stored) (codes "ttlExpired") m in
    Kept_of_Back pf sweeps_expired m.stored m'.stored id s t
      (MayGo-Back pf sweeps_expired m m'
        (revoke_each-Back (expired_keys now m.stored) (codes "ttlExpired") m))
      h k
step-Evolves pf m now relay_closes id s t h k =
    Kept_of_Back pf relay_closes m.stored (compact_revoked m).stored id s t
      (MayGo-Back pf relay_closes m (compact_revoked m) (close_or_compact-Back none m)) h k
step-Evolves pf m now (upgrades i delta expected) id s t h k =
    Kept_of_Back pf (upgrades i delta expected) m.stored _ id s t
      (upgrade-Back pf (upgrades i delta expected) i delta expected m refl) h k

-- A session that is revoked is never anything else again while it is stored.
pub revoked_stays_revoked :
    (pf : Platform) (m : Manager) (now : ℕ) (c : Call) (id : Str) (s t : Stored)
    → lookup id m.stored ≡ some s
    → lookup id (step pf m (now, c)).stored ≡ some t
    → s.session.state ≡ State.revoked
    → t.session.state ≡ State.revoked
revoked_stays_revoked pf m now c id s t h k r =
    Edge_of_revoked _ _ (step-Evolves pf m now c id s t h k).edge r
  where
    Edge_of_revoked : (a b : State) → Edge id c a b → a ≡ State.revoked → b ≡ State.revoked
    Edge_of_revoked a b stays e = e
    Edge_of_revoked a b (approves_it x) e = cc
    Edge_of_revoked a b suspends_it e = cc
    Edge_of_revoked a b (resumes_it x) e = cc
    Edge_of_revoked a b revokes_it e = refl
