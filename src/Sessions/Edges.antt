-- ===== src/Sessions/Edges.antt =====
-- The edges of the life of a session of src/companion/task-sessions.ts, and relations between
-- the sessions of two states.
use agent_tab_bridge.Base.{
  ◌-◌, ◌≡◌, ◌⊎◌, refl, ap, ◌∙◌, true, Option, none, some, List, [], ◌∷◌, ◌==◌, length, take,
  list_eq, nat_eq, pair_eq, arith, Bool-cases, inl, inr, subst, if_ind, eq_iff,
}
use agent_tab_bridge.Base.Maps.{lookup, insert, lookup-insert}
use agent_tab_bridge.Base.Results.{ok}
use agent_tab_bridge.Base.Text.{Str}
use agent_tab_bridge.Access.Defs.{Platform, Access, Delta, upgrade_session_access}
use agent_tab_bridge.Sessions.Types.{State, Session, Relay, Stored, Manager, Event, emit}
use agent_tab_bridge.Sessions.Entry.{is_reconnecting, tombstone}
use agent_tab_bridge.Sessions.Manager.{
  Answer, store, append_log, is_revoked, delete_all, compact_revoked, revoked_entries, sort_by_age,
  forget_reusable_session, close_or_compact, revoke_stored, revoke_entry, revoke, revoke_each,
}
use agent_tab_bridge.Sessions.Life.{is_pending, is_active}
use agent_tab_bridge.Sessions.Invariant.{lookup-delete_all, forget-stored}
use agent_tab_bridge.Sessions.Steps.{Call, approves, relay_readies, upgrades}

-- The states that follow one another. Only `approve` makes a pending session active, and only
-- `relayReady` a suspended one; every session may be revoked, and nothing follows that.
pub data Edge (id : Str) (c : Call) : State → State → Type 0 where
  stays : {a : State} → Edge id c a a
  approves_it : c ≡ approves id → Edge id c State.pending State.active
  suspends_it : Edge id c State.active State.reconnecting
  resumes_it : c ≡ relay_readies id → Edge id c State.reconnecting State.active
  revokes_it : {a : State} → Edge id c a State.revoked

-- A session keeps all but its state and its access, and its access unless an upgrade of the access
-- that it has is applied; its new access is then the very one that was expected of the upgrade.
pub record Evolves (pf : Platform) (id : Str) (c : Call) (s t : Stored) : Type 0 where
  pub edge : Edge id c s.session.state t.session.state
  pub same_session :
      t.session ≡ record s.session { state = t.session.state; access = t.session.access }
  pub same_access :
      (t.session.access ≡ s.session.access)
      ⊎ ((delta : Delta) × (expected : Access) × (c ≡ upgrades id delta expected)
          × (s.session.state ≡ State.active)
          × (upgrade_session_access pf s.session.access delta ≡ ok t.session.access)
          × (t.session.access ≡ expected))

-- Every entry of the second map comes from one of the first, by the relation.
abbrev pub Back :
    (Str → Stored → Stored → Type 0) → List (Str × Stored) → List (Str × Stored) → Type 0
Back R m m' =
    (id : Str) (t : Stored)
    → lookup id m' ≡ some t
    → (s : Stored) × (lookup id m ≡ some s) × R id s t

module _ (R : Str → Stored → Stored → Type 0) (R-refl : (id : Str) (s : Stored) → R id s s) where
  pub Back-refl : (m : List (Str × Stored)) → Back R m m
  Back-refl m id t h = (t, h, R-refl id t)

  pub insert-Back :
      (id : Str) (s t : Stored) (m : List (Str × Stored))
      → lookup id m ≡ some s
      → R id s t
      → Back R m (insert id t m)
  insert-Back id s t m e r j u h = elim (Bool-cases (id == j)) [
    | inl k ↦
        let same : t ≡ u = cc (rw (lookup-insert id j t m, k) at h) in
        let own : id ≡ j = (eq_iff id j).0 k in
        (
          s,
          subst (λ x. lookup x m ≡ some s) own e,
          subst (λ x. R x s u) own (subst (R id s) same r),
        )
    | inr k ↦ (u, rw (lookup-insert id j t m, k) at h, R-refl j u)
  ]

  delete_all-Back : (es m : List (Str × Stored)) → Back R m (delete_all es m)
  delete_all-Back es m id t h = (t, lookup-delete_all es m id t h, R-refl id t)

pub is_pending_eq : (a : State) → is_pending a ≡ true → a ≡ State.pending
is_pending_eq a h = ground arith

pub is_active_eq : (a : State) → is_active a ≡ true → a ≡ State.active
is_active_eq a h = ground arith

pub is_reconnecting_eq : (a : State) → is_reconnecting a ≡ true → a ≡ State.reconnecting
is_reconnecting_eq a h = ground arith

-- What `revoke` does to each entry.
abbrev pub MayGo : Str → Stored → Stored → Type 0
MayGo id s t = (t ≡ s) ⊎ (t ≡ tombstone s)

MayGo-refl : (id : Str) (s : Stored) → MayGo id s s
MayGo-refl id s = inl refl

tombstone_idem : (s : Stored) → tombstone (tombstone s) ≡ tombstone s
unfolding tombstone
tombstone_idem s = refl

MayGo-trans : (id : Str) (s t u : Stored) → MayGo id s t → MayGo id t u → MayGo id s u
MayGo-trans id s t u (inl p) (inl q) = inl (q ∙ p)
MayGo-trans id s t u (inl p) (inr q) = inr (q ∙ ap tombstone p)
MayGo-trans id s t u (inr p) (inl q) = inr (q ∙ p)
MayGo-trans id s t u (inr p) (inr q) = inr (q ∙ ap tombstone p ∙ tombstone_idem s)

Back-trans : (a b c : List (Str × Stored)) → Back MayGo a b → Back MayGo b c → Back MayGo a c
Back-trans a b c f g id u h =
    let (t, ht, r) = g id u h in let (s, hs, q) = f id t ht in (s, hs, MayGo-trans id s t u q r)

pub close_or_compact-Back :
    (r : Option Relay) (m : Manager) → Back MayGo m.stored (close_or_compact r m).stored
unfolding compact_revoked
close_or_compact-Back none m =
    let revoked = revoked_entries m.stored in
    delete_all-Back MayGo MayGo-refl (take (length revoked - 64) (sort_by_age revoked)) m.stored
close_or_compact-Back (some r) m = Back-refl MayGo MayGo-refl m.stored

revoke_stored-Back :
    (id : Str) (s : Stored) (reason : Str) (m : Manager)
    → lookup id m.stored ≡ some s
    → Back MayGo m.stored (revoke_stored id s reason m).stored
unfolding revoke_stored
revoke_stored-Back id s reason m e =
    let gone = store id (tombstone s) m in
    let told =
      append_log (emit (Event.revoked (tombstone s).session reason) ∷ [])
        (forget_reusable_session s gone) in
    Back-trans m.stored gone.stored (close_or_compact s.relay told).stored
      (insert-Back MayGo MayGo-refl id s (tombstone s) m.stored e (inr refl))
      (subst (λ x. Back MayGo x (close_or_compact s.relay told).stored) (forget-stored s gone)
        (close_or_compact-Back s.relay told))

abbrev LeftFrom : Manager → Answer Session → Type 0
LeftFrom m a = Back MayGo m.stored a.0.stored

pub revoke-Back :
    (id reason : Str) (m : Manager) → Back MayGo m.stored (revoke id reason m).0.stored
unfolding revoke
revoke-Back id reason m = go (lookup id m.stored) refl
  where
    go : (o : Option Stored) → lookup id m.stored ≡ o → LeftFrom m (revoke_entry id o reason m)
    go none e = unfold revoke_entry in (Back-refl MayGo MayGo-refl m.stored)
    go (some s) e =
        unfold revoke_entry in
        (if_ind (LeftFrom m) s.revoking (λ h. Back-refl MayGo MayGo-refl m.stored)
          λ h.
            if_ind (LeftFrom m) (is_revoked s.session.state)
              (λ k. Back-refl MayGo MayGo-refl m.stored) (λ k. revoke_stored-Back id s reason m e))

pub revoke_each-Back :
    (ids : List Str) (reason : Str) (m : Manager)
    → Back MayGo m.stored (revoke_each ids reason m).stored
unfolding revoke_each
revoke_each-Back [] reason m = Back-refl MayGo MayGo-refl m.stored
revoke_each-Back (id ∷ ids) reason m =
    let m' = (revoke id reason m).0 in
    Back-trans m.stored m'.stored _ (revoke-Back id reason m) (revoke_each-Back ids reason m')
