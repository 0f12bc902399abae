-- ===== src/Sessions/Operations.antt =====
-- `TaskSessionManager`: `open`, the steps of a session's life, and what callers may ask.
use agent_tab_bridge.Base.{
  ℕ, ◌+◌, Bool, false, not, ◌&&◌, ◌||◌, Option, none, some, List, [], ◌∷◌, ltb, ◌==◌, if◌then◌else◌,
  length, nat_eq, list_eq, pair_eq,
}
use agent_tab_bridge.Base.Maps.{lookup, insert, delete}
use agent_tab_bridge.Base.Results.{Result, ok, err, ◌>>=◌, ◌>>◌, throw_if}
use agent_tab_bridge.Base.Text.{Str, codes, trim}
use agent_tab_bridge.Json.{Json, undefined, num}
use agent_tab_bridge.Access.Order.{str_order, distinct_from}
use agent_tab_bridge.Access.Defs.{
  Platform, Access, AccessError, RawAccess, normalize_session_access, same_session_access,
}
use agent_tab_bridge.Sessions.Types.{
  State, Session, Route, Stored, SessionError, not_active, invalid_session, unsupported_capability,
  invalid_ttl, session_conflict, invalid_access, Event, emit, Manager, max_task_session_ttl_ms,
  local_route_provenance, is_stable_session_key, same_route,
}
use agent_tab_bridge.Sessions.Entry.{is_live}
use agent_tab_bridge.Sessions.Manager.{Answer, store, append_log, is_revoked, reusable_key}

abbrev SessionResult : Type 0 → Type 0
SessionResult A = Result {0, 0} SessionError A

-- `OpenTaskSessionInput`. A missing access is one whose fields are all missing.
pub record OpenInput : Type 0 where
  pub controller_principal_id : Str
  pub controller_name : Str
  pub task_label : Str
  pub capabilities : List Str
  pub access : RawAccess
  pub ttl_ms : Json
  pub stable_session_key : Option Str
  pub route : Option Route

-- The options of the constructor on which the route of a session depends.
pub record Options : Type 0 where
  pub local_endpoint_id : Option Str
  pub route_for : Option (Str → Access → Route)

-- `text`: trimmed, not empty and not too long.
unfoldable pub text : ℕ → Str → SessionResult Str
text max value = do
  let result = trim value
  throw_if (length result == 0 || ltb max (length result)) invalid_session
  ok result

abbrev not_cdp : List Str → Bool
not_cdp [] = false
not_cdp (c ∷ cs) = not (c == codes "cdp") || not_cdp cs

-- The capabilities are exactly `cdp`, once.
unfoldable pub bad_capabilities : List Str → Bool
unfolding distinct_from
bad_capabilities capabilities =
    length capabilities == 0
    || not (length (distinct_from [] capabilities) == length capabilities)
    || not_cdp capabilities

-- A time to live is missing, or a whole number of milliseconds within the limit.
abbrev pub read_ttl : Json → SessionResult (Option ℕ)
read_ttl undefined = ok none
read_ttl (num n) = if n == 0 || ltb max_task_session_ttl_ms n then err invalid_ttl else ok (some n)
read_ttl _ = err invalid_ttl

abbrev pub read_key : Option Str → SessionResult (Option Str)
read_key none = ok none
read_key (some name) = if is_stable_session_key name then ok (some name) else err invalid_session

abbrev lift_access {ℓ} : {A : Type ℓ} → Result {0, ℓ} AccessError A → Result SessionError A
lift_access (ok a) = ok a
lift_access (err e) = err (invalid_access e)

abbrev or_else {ℓ} : {A : Type ℓ} → Option A → A → A
or_else none a = a
or_else (some b) a = b

abbrev route_of : Options → Option Route → Str → Access → Route
route_of options (some r) principal access = r
route_of options none principal access = elim options.route_for [
  | some f ↦ f principal access
  | none ↦ local_route_provenance (or_else options.local_endpoint_id principal) principal access
]

-- An input whose fields have been checked.
pub record Checked : Type 0 where
  pub controller_principal_id : Str
  pub controller_name : Str
  pub task_label : Str
  pub capabilities : List Str
  pub access : Access
  pub ttl : Option ℕ
  pub stable_session_key : Option Str
  pub route : Route

-- The checks of `open`, in their order.
unfoldable pub check_input : Platform → Options → OpenInput → SessionResult Checked
check_input pf options input = do
  access ← lift_access (normalize_session_access pf input.access)
  throw_if (bad_capabilities input.capabilities) unsupported_capability
  ttl ← read_ttl input.ttl_ms
  principal ← text 256 input.controller_principal_id
  name ← text 128 input.controller_name
  label ← text 128 input.task_label
  key ← read_key input.stable_session_key
  let route = route_of options input.route principal access
  throw_if (not (route.controller_principal_id == principal)) invalid_session
  ok (record {
    controller_principal_id = principal;
    controller_name = name;
    task_label = label;
    capabilities = input.capabilities;
    access = access;
    ttl = ttl;
    stable_session_key = key;
    route = route;
  })

-- Whether a named session was opened with the same authority.
unfoldable pub same_authority : Session → Checked → Bool
same_authority existing c =
    existing.task_label == c.task_label
    && existing.requested_capabilities == c.capabilities
    && same_session_access existing.access c.access
    && same_route existing.route c.route

abbrev expiry : ℕ → Option ℕ → Option ℕ
expiry now none = none
expiry now (some ttl) = some (now + ttl)

unfoldable pub new_session : ℕ → Str → Checked → Session
new_session now id c = record {
  id = id;
  controller_principal_id = c.controller_principal_id;
  display_controller_name = c.controller_name;
  task_label = c.task_label;
  requested_capabilities = c.capabilities;
  access = c.access;
  created_at = now;
  expires_at = expiry now c.ttl;
  state = State.pending;
  route = c.route;
}

unfoldable pub new_stored : ℕ → Str → Checked → Stored
new_stored now id c = record {
  session = new_session now id c;
  stable_session_key = c.stable_session_key;
  relay = none;
  approval = none;
  ready = false;
  timer = expiry now c.ttl;
  recovery_timer = none;
  revoking = false;
}

abbrev pub remember : Option Str → Str → Str → Manager → Manager
remember none principal id m = m
remember (some name) principal id m = record m {
  reusable_session_ids = insert (reusable_key principal name) id m.reusable_session_ids;
}

-- A new session, under an identifier that must not be taken.
unfoldable pub create : ℕ → Str → Checked → Manager → Answer Session
create now id c m = elim (lookup id m.stored) [
  | some taken ↦ (m, err invalid_session)
  | none ↦ (
    append_log (emit (Event.pending (new_session now id c)) ∷ []) (
        remember c.stable_session_key c.controller_principal_id id
          (store id (new_stored now id c) m)),
    ok (new_session now id c),
  )
]

-- The session that a name stands for, revoked ones included.
unfoldable pub find_named : Str → Str → Manager → Option Stored
find_named principal name m = elim (lookup (reusable_key principal name) m.reusable_session_ids) [
  | none ↦ none
  | some id ↦ lookup id m.stored
]

abbrev pub find_existing : Checked → Manager → Option Stored
find_existing c m = elim c.stable_session_key [
  | none ↦ none
  | some name ↦ find_named c.controller_principal_id name m
]

abbrev without_named : Checked → List ((Str × Str) × Str) → List ((Str × Str) × Str)
without_named c ids = elim c.stable_session_key [
  | none ↦ ids
  | some name ↦ delete (reusable_key c.controller_principal_id name) ids
]

-- The name no longer stands for a session.
abbrev pub forget_named : Checked → Manager → Manager
forget_named c m = record m { reusable_session_ids = without_named c m.reusable_session_ids }

-- What a named session that is not revoked answers, if the authority is the same: an approved one
-- is handed back, a pending one is still to be approved.
unfoldable pub reuse : Checked → Session → SessionResult Session
unfolding same_authority
reuse c existing =
    if same_authority existing c
    then if is_live existing.state then ok existing else err not_active
    else err session_conflict

-- A name that stands for a revoked session, or for none that is stored, is given to a new one.
unfoldable pub reuse_or_create : ℕ → Str → Checked → Option Stored → Manager → Answer Session
unfolding reuse
reuse_or_create now id c none m = create now id c (forget_named c m)
reuse_or_create now id c (some s) m =
    if is_revoked s.session.state
    then create now id c (forget_named c m)
    else (m, reuse c s.session)

abbrev pub open_checked : ℕ → Str → SessionResult Checked → Manager → Answer Session
open_checked now id (err e) m = (m, err e)
open_checked now id (ok c) m = reuse_or_create now id c (find_existing c m) m

-- `open`, at a time and with the identifier that the factory would give.
unfoldable pub open_session : Platform → Options → ℕ → Str → OpenInput → Manager → Answer Session
open_session pf options now id input m = open_checked now id (check_input pf options input) m
