-- ===== src/Sessions/Types.antt =====
-- The data of the session manager. Promises that a caller may await are values: `starting` until
-- the relay has started. Timers are the time at which they are due.
use agent_tab_bridge.Base.{
  ℕ, Bool, true, false, ◌&&◌, ◌||◌, Option, none, List, [], ◌∷◌, ◌==◌, if◌then◌else◌, length,
  nat_eq, list_eq, option_eq, nat_beq, ltb,
}
use agent_tab_bridge.Base.Text.{Str, all_of, is_alphanumeric}
use agent_tab_bridge.Access.Defs.{Access, AccessError, same_session_access}

pub data RouteKind : Type 0 where
  local routed : RouteKind

pub data RoutePolicy : Type 0 where
  local_only routed : RoutePolicy

pub record Route : Type 0 where
  pub kind : RouteKind
  pub endpoint_id : Str
  pub controller_principal_id : Str
  pub route_policy : RoutePolicy
  pub access_ceiling : Access
  pub hub_id : Option Str
  pub route_id : Option Str
  pub stream_id : Option Str

-- `localRouteProvenance`.
unfoldable pub local_route_provenance : Str → Str → Access → Route
local_route_provenance endpoint_id controller_principal_id access_ceiling = record {
  kind = RouteKind.local;
  endpoint_id = endpoint_id;
  controller_principal_id = controller_principal_id;
  route_policy = RoutePolicy.local_only;
  access_ceiling = access_ceiling;
  hub_id = none;
  route_id = none;
  stream_id = none;
}

pub data State : Type 0 where
  pending active reconnecting revoked : State

pub record Session : Type 0 where
  pub id : Str
  pub controller_principal_id : Str
  pub display_controller_name : Str
  pub task_label : Str
  pub requested_capabilities : List Str
  pub access : Access
  pub created_at : ℕ
  pub expires_at : Option ℕ
  pub state : State
  pub route : Route

pub record Relay : Type 0 where
  pub pairing_url : Str
  pub cdp_url : Str

-- The promise of `approve`: pending, resolved with the pairing address, or rejected.
pub data Approval : Type 0 where
  starting : Approval
  started : Str → Approval
  rejected : Approval

pub record Stored : Type 0 where
  pub session : Session
  pub stable_session_key : Option Str
  pub relay : Option Relay
  pub approval : Option Approval
  pub ready : Bool
  pub timer : Option ℕ
  pub recovery_timer : Option ℕ
  pub revoking : Bool

-- The codes of `TaskSessionError`; `invalid_access` is an exception of the access functions.
pub data SessionError : Type 0 where
  invalid_session unsupported_capability invalid_ttl : SessionError
  not_pending not_active not_found session_conflict : SessionError
  invalid_access : AccessError → SessionError

pub data Event : Type 0 where
  pending : Session → Event
  active : Session → Str → Event
  reconnecting : Session → Event
  revoked : Session → Str → Event

-- What the manager asks of its surroundings, in order.
pub data Effect : Type 0 where
  emit : Event → Effect
  start_relay : Str → Effect
  close_relay : Relay → Effect

pub record Manager : Type 0 where
  pub stored : List (Str × Stored)
  pub reusable_session_ids : List ((Str × Str) × Str)
  pub log : List Effect

abbrev pub max_revoked_task_session_tombstones : ℕ
max_revoked_task_session_tombstones = 64

abbrev pub max_task_session_ttl_ms : ℕ
max_task_session_ttl_ms = 86400000

abbrev pub endpoint_recovery_grace_ms : ℕ
endpoint_recovery_grace_ms = 120000

abbrev pub max_stable_session_key_length : ℕ
max_stable_session_key_length = 128

-- `/^[A-Za-z0-9._:-]$/`.
abbrev pub is_key_char : ℕ → Bool
is_key_char c =
    is_alphanumeric c || nat_beq c b'.' || nat_beq c b'_' || nat_beq c b':' || nat_beq c b'-'

abbrev pub is_key_text : Str → Bool
is_key_text [] = false
is_key_text (c ∷ s) = is_alphanumeric c && all_of is_key_char s

-- `isStableSessionKey` on a string.
unfoldable pub is_stable_session_key : Str → Bool
is_stable_session_key value =
    ltb 0 (length value)
    && (if ltb max_stable_session_key_length (length value) then false else true)
    && is_key_text value

abbrev pub route_kind_beq : RouteKind → RouteKind → Bool
route_kind_beq RouteKind.local RouteKind.local = true
route_kind_beq RouteKind.routed RouteKind.routed = true
route_kind_beq _ _ = false

abbrev pub route_policy_beq : RoutePolicy → RoutePolicy → Bool
route_policy_beq local_only local_only = true
route_policy_beq RoutePolicy.routed RoutePolicy.routed = true
route_policy_beq _ _ = false

-- `JSON.stringify(a) === JSON.stringify(b)` of routes whose fields stand in one order.
unfoldable pub same_route : Route → Route → Bool
same_route a b =
    route_kind_beq a.kind b.kind
    && a.endpoint_id == b.endpoint_id
    && a.controller_principal_id == b.controller_principal_id
    && route_policy_beq a.route_policy b.route_policy
    && same_session_access a.access_ceiling b.access_ceiling
    && a.hub_id == b.hub_id
    && a.route_id == b.route_id
    && a.stream_id == b.stream_id
