-- ===== src/Sessions/Steps/Entries.antt =====
-- Soundness of one stored session of src/companion/task-sessions.ts under each of its changes.
use agent_tab_bridge.Base.{ℕ, ◌≡◌, ◌≢◌, true, false, none, some, arith}
use agent_tab_bridge.Base.Text.{Str}
use agent_tab_bridge.Access.Defs.{Access}
use agent_tab_bridge.Sessions.Types.{State, Relay, rejected, Stored}
use agent_tab_bridge.Sessions.Entry.{
  approved, with_relay, is_live, resumed, recovering, tombstone, with_access,
}
use agent_tab_bridge.Sessions.Operations.{Checked, new_session, new_stored}
use agent_tab_bridge.Sessions.Life.{begin_recovery, is_pending, is_starting}
use agent_tab_bridge.Sessions.Manager.{is_revoked}

-- A stored session stands under its own identifier. It has a relay only after its approval and not
-- once it is revoked, is ready only while it is active with a relay, waits for its recovery exactly
-- while it is suspended, and is revoked exactly once.
pub record IsSound (id : Str) (s : Stored) : Type 0 where
  pub own_id : s.session.id ≡ id
  pub pending_bare : s.session.state ≡ State.pending → (s.relay ≡ none) × (s.approval ≡ none)
  pub approved_asked : is_live s.session.state ≡ true → s.approval ≢ none
  pub ready_active : s.ready ≡ true → (s.session.state ≡ State.active) × (s.relay ≢ none)
  pub revoked_bare :
      s.session.state ≡ State.revoked → (s.relay ≡ none) × (s.timer ≡ none) × (s.revoking ≡ true)
  pub recovery_armed : s.session.state ≡ State.reconnecting → s.recovery_timer ≢ none
  pub recovery_needed : s.recovery_timer ≢ none → s.session.state ≡ State.reconnecting
  pub revoking_revoked : s.revoking ≡ true → s.session.state ≡ State.revoked

pub new_stored-IsSound : (now : ℕ) (id : Str) (c : Checked) → IsSound id (new_stored now id c)
unfolding new_stored new_session
new_stored-IsSound now id c = ground arith

pub approved-IsSound :
    (id : Str) (s : Stored)
    → is_pending s.session.state ≡ true
    → IsSound id s
    → IsSound id (approved s)
unfolding approved
approved-IsSound id s p v = ground arith

pub with_relay-IsSound :
    (id : Str) (r : Relay) (s : Stored)
    → is_starting s.approval ≡ true
    → is_revoked s.session.state ≡ false
    → IsSound id s
    → IsSound id (with_relay r s)
unfolding with_relay
with_relay-IsSound id r s p q v = ground arith

pub resumed-IsSound :
    (id : Str) (r : Relay) (s : Stored)
    → s.relay ≡ some r
    → is_live s.session.state ≡ true
    → IsSound id s
    → IsSound id (resumed s)
unfolding resumed
resumed-IsSound id r s e p v = ground arith

pub begin_recovery-IsSound :
    (id : Str) (now : ℕ) (s : Stored) → IsSound id s → IsSound id (begin_recovery now s)
unfolding recovering
begin_recovery-IsSound id now s v = ground arith

pub tombstone-IsSound : (id : Str) (s : Stored) → IsSound id s → IsSound id (tombstone s)
unfolding tombstone
tombstone-IsSound id s v = ground arith

pub with_access-IsSound :
    (id : Str) (a : Access) (s : Stored) → IsSound id s → IsSound id (with_access a s)
with_access-IsSound id a s v = ground arith

-- A promise is settled for a session that is no longer pending.
pub rejected-IsSound :
    (id : Str) (s : Stored)
    → is_pending s.session.state ≡ false
    → IsSound id s
    → IsSound id (record s { approval = some rejected })
rejected-IsSound id s p v = ground arith
