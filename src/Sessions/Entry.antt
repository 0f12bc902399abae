-- ===== src/Sessions/Entry.antt =====
-- What the operations of the session manager do to one stored session.
use agent_tab_bridge.Base.{
  ℕ, ◌+◌, Bool, true, false, Option, none, some, List, [], ◌∷◌, if◌then◌else◌,
}
use agent_tab_bridge.Access.Defs.{Access}
use agent_tab_bridge.Sessions.Types.{
  State, Session, Relay, starting, started, Stored, Event, Effect, emit, close_relay,
  endpoint_recovery_grace_ms,
}

-- `changed`.
abbrev pub changed : Session → State → Session
changed session state = record session { state = state }

-- `approve` of a pending session: the relay is asked for, and not there yet.
unfoldable pub approved : Stored → Stored
approved s = record s { session = changed s.session State.active; approval = some starting }

-- The relay of an approved session has started.
unfoldable pub with_relay : Relay → Stored → Stored
with_relay r s = record s { relay = some r; approval = some (started r.pairing_url) }

abbrev pub is_reconnecting : State → Bool
is_reconnecting State.reconnecting = true
is_reconnecting _ = false

abbrev pub is_live : State → Bool
is_live State.active = true
is_live State.reconnecting = true
is_live _ = false

-- `relayReady`: the connection is there, and a suspended session is resumed.
unfoldable pub resumed : Stored → Stored
resumed s = record s {
  session = if is_reconnecting s.session.state then changed s.session State.active else s.session;
  ready = true;
  recovery_timer = none;
}

-- An event is sent if the session was not ready, or was resumed.
unfoldable pub resume_effects : Relay → Stored → List Effect
resume_effects r s =
    let event = emit (Event.active (resumed s).session r.cdp_url) ∷ [] in
    if s.ready then if is_reconnecting s.session.state then event else [] else event

-- `beginRecovery` of an active session at a time.
unfoldable pub recovering : ℕ → Stored → Stored
recovering now s = record s {
  session = changed s.session State.reconnecting;
  ready = false;
  recovery_timer = some (now + endpoint_recovery_grace_ms);
}

-- `revoke`: the tombstone of a session.
unfoldable pub tombstone : Stored → Stored
tombstone s = record s {
  session = changed s.session State.revoked;
  relay = none;
  ready = false;
  timer = none;
  recovery_timer = none;
  revoking = true;
}

abbrev pub close_effects : Option Relay → List Effect
close_effects none = []
close_effects (some r) = close_relay r ∷ []

abbrev pub with_access : Access → Stored → Stored
with_access a s = record s { session = record s.session { access = a } }
