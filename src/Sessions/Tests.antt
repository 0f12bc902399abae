-- ===== src/Sessions/Tests.antt =====
-- A session of src/companion/task-sessions.ts from its opening on.
use agent_tab_bridge.Base.{ℕ, ◌≡◌, refl, false, none, some, List, [], ◌∷◌, list_eq, nat_eq, pair_eq}
use agent_tab_bridge.Base.Maps.{lookup, insert, delete}
use agent_tab_bridge.Base.Text.{
  codes, trim, trim_start, is_space, is_alphanumeric, is_lower, is_upper, is_digit,
}
use agent_tab_bridge.Json.{undefined, num, arr, from_list, to_list}
use agent_tab_bridge.Access.Order.{distinct_from, sort_distinct, sort}
use agent_tab_bridge.Access.Defs.{
  Platform, Level, Access, normalize_session_access, normalized_tab_ids, normalized_domains,
  check_level,
}
use agent_tab_bridge.Sessions.Types.{
  State, Session, Stored, Manager, local_route_provenance, is_stable_session_key,
}
use agent_tab_bridge.Sessions.Entry.{approved, tombstone}
use agent_tab_bridge.Sessions.Manager.{
  revoke, revoke_stored, revoke_entry, compact_revoked, forget_reusable_session, sort_by_age,
  delete_all,
}
use agent_tab_bridge.Sessions.Operations.{
  OpenInput, Options, open_session, check_input, reuse_or_create, create, find_named, new_session,
  new_stored, text, bad_capabilities,
}
use agent_tab_bridge.Sessions.Life.{approve, approve_entry}
use agent_tab_bridge.Sessions.Steps.{IsSound, Call, step, run, new_manager, opens, approves}
use agent_tab_bridge.Sessions.Invariant.{stored_session-IsSound, revoke-leaves_revoked}
use agent_tab_bridge.Sessions.Edges.{Evolves}
use agent_tab_bridge.Sessions.Evolution.{step-Evolves, revoked_stays_revoked}

abbrev as_is : Platform
as_is = record { to_lower_case = λ s. s; host_name = λ s. some s }

abbrev any_route : Options
any_route = record { local_endpoint_id = some (codes "e"); route_for = none }

abbrev input : OpenInput
input = record {
  controller_principal_id = codes "p";
  controller_name = codes "n";
  task_label = codes " t ";
  capabilities = codes "cdp" ∷ [];
  access = record {
    level = undefined;
    tab_ids = arr (from_list (num 4 ∷ []));
    domains = undefined;
  };
  ttl_ms = num 60;
  stable_session_key = some (codes "k1");
  route = none;
}

abbrev tab_access : Access
tab_access = record { level = Level.selected_tabs; tab_ids = 4 ∷ []; domains = [] }

abbrev opened_session : Session
opened_session = record {
  id = codes "s";
  controller_principal_id = codes "p";
  display_controller_name = codes "n";
  task_label = codes "t";
  requested_capabilities = codes "cdp" ∷ [];
  access = tab_access;
  created_at = 10;
  expires_at = some 70;
  state = State.pending;
  route = local_route_provenance (codes "e") (codes "p") tab_access;
}

abbrev opened_entry : Stored
opened_entry = record {
  session = opened_session;
  stable_session_key = some (codes "k1");
  relay = none;
  approval = none;
  ready = false;
  timer = some 70;
  recovery_timer = none;
  revoking = false;
}

abbrev opening : List (ℕ × Call)
opening = (10, opens any_route (codes "s") input) ∷ []

opened : lookup (codes "s") (run as_is new_manager opening).stored ≡ some opened_entry
unfolding lookup insert run step open_session check_input reuse_or_create create find_named
    new_session new_stored text bad_capabilities normalize_session_access normalized_tab_ids
    normalized_domains check_level sort_distinct sort distinct_from trim trim_start is_space
    is_alphanumeric is_lower is_upper is_digit to_list from_list is_stable_session_key
    local_route_provenance
opened = refl

stored_session-IsSound_example : IsSound (codes "s") opened_entry
stored_session-IsSound_example =
    stored_session-IsSound as_is opening (codes "s") opened_entry opened

abbrev at_first : Manager
at_first = run as_is new_manager opening

approved-stored :
    lookup (codes "s") (step as_is at_first (12, approves (codes "s"))).stored
    ≡ some (approved opened_entry)
unfolding lookup insert run step open_session check_input reuse_or_create create find_named
    new_session new_stored text bad_capabilities normalize_session_access normalized_tab_ids
    normalized_domains check_level sort_distinct sort distinct_from trim trim_start is_space
    is_alphanumeric is_lower is_upper is_digit to_list from_list is_stable_session_key
    local_route_provenance approve approve_entry approved
approved-stored = refl

step-Evolves_example :
    Evolves as_is (codes "s") (approves (codes "s")) opened_entry (approved opened_entry)
step-Evolves_example =
    step-Evolves as_is at_first 12 (approves (codes "s")) (codes "s") opened_entry
      (approved opened_entry) opened approved-stored

tombstone-stored :
    lookup (codes "s") (revoke (codes "s") (codes "userRevoked") at_first).0.stored
    ≡ some (tombstone opened_entry)
unfolding lookup insert delete run step open_session check_input reuse_or_create create find_named
    new_session new_stored text bad_capabilities normalize_session_access normalized_tab_ids
    normalized_domains check_level sort_distinct sort distinct_from trim trim_start is_space
    is_alphanumeric is_lower is_upper is_digit to_list from_list is_stable_session_key
    local_route_provenance revoke revoke_entry revoke_stored compact_revoked forget_reusable_session
    sort_by_age delete_all tombstone
tombstone-stored = refl

revoke-leaves_revoked_example : (tombstone opened_entry).session.state ≡ State.revoked
revoke-leaves_revoked_example =
    revoke-leaves_revoked as_is opening (codes "s") (codes "userRevoked") (tombstone opened_entry)
      tombstone-stored

abbrev after_revocation : Manager
after_revocation = (revoke (codes "s") (codes "userRevoked") at_first).0

still-stored :
    lookup (codes "s") (step as_is after_revocation (20, approves (codes "s"))).stored
    ≡ some (tombstone opened_entry)
unfolding lookup insert delete run step open_session check_input reuse_or_create create find_named
    new_session new_stored text bad_capabilities normalize_session_access normalized_tab_ids
    normalized_domains check_level sort_distinct sort distinct_from trim trim_start is_space
    is_alphanumeric is_lower is_upper is_digit to_list from_list is_stable_session_key
    local_route_provenance revoke revoke_entry revoke_stored compact_revoked forget_reusable_session
    sort_by_age delete_all tombstone approve approve_entry
still-stored = refl

tombstone-revoked : (tombstone opened_entry).session.state ≡ State.revoked
unfolding tombstone
tombstone-revoked = refl

revoked_stays_revoked_example : (tombstone opened_entry).session.state ≡ State.revoked
revoked_stays_revoked_example =
    revoked_stays_revoked as_is after_revocation 20 (approves (codes "s")) (codes "s")
      (tombstone opened_entry) (tombstone opened_entry) tombstone-stored still-stored
      tombstone-revoked
