-- ===== src/Browser/Tests.antt =====
-- Two sessions of extensions/browser/chrome-extension/modules/session-core.js and their tabs.
use agent_tab_bridge.Base.{
  ◌≡◌, refl, true, ◌↔◌, Bool, Option, none, some, List, [], ◌∷◌, list_eq, nat_eq, option_eq,
}
use agent_tab_bridge.Base.Maps.{lookup, insert}
use agent_tab_bridge.Base.Text.{Str, codes}
use agent_tab_bridge.Browser.Ownership.{Action, claims, releases, stops, act, act_all, claim_tab}
use agent_tab_bridge.Browser.Rules.{owner_of}
use agent_tab_bridge.Browser.Owners.{
  owner_after_all, replies, answers, act_all-refines, owned_tab_stays,
}
use agent_tab_bridge.Browser.Authority.{Session, Complete, same_session_authority}
use agent_tab_bridge.Browser.Matching.{in_state_of, same_session_authority_iff}

abbrev actions : List Action
actions =
    claims (codes "a") 7
    ∷ claims (codes "b") 7
    ∷ claims (codes "b") 8
    ∷ releases (codes "b") 7
    ∷ stops (codes "b")
    ∷ []

act_all-refines_example :
    (owner_of (act_all actions []) ≡ owner_after_all actions (λ t. none))
    × (replies actions [] ≡ answers actions (λ t. none))
act_all-refines_example = act_all-refines actions

abbrev others : List Action
others = claims (codes "b") 7 ∷ releases (codes "b") 7 ∷ stops (codes "b") ∷ []

owned_tab_stays_example :
    owner_of (act_all others (act_all (claims (codes "a") 7 ∷ []) [])) 7 ≡ some (codes "a")
unfolding act_all act claim_tab lookup insert
owned_tab_stays_example =
    owned_tab_stays (claims (codes "a") 7 ∷ []) others b'a' [] 7 refl (tt, (refl, (refl, tt)))

abbrev session : Str → Option Bool → Session
session state grant = record {
  id = codes "i";
  controller_id = codes "c";
  controller_name = codes "n";
  task_label = codes "t";
  created_at = 1;
  expires_at = none;
  capabilities = codes "tabs" ∷ [];
  access = some (record { level = codes "tabs"; tab_ids = 7 ∷ []; domains = [] });
  route = some (record {
    kind = codes "local";
    endpoint_id = codes "e";
    controller_principal_id = codes "p";
    route_policy = codes "local";
    access_ceiling = some (record { level = codes "full"; tab_ids = []; domains = [] });
    hub_id = none;
    route_id = none;
    stream_id = none;
  });
  state = state;
  remembered_grant = grant;
}

abbrev pending : Session
pending = session (codes "pending") none

abbrev active : Session
active = session (codes "active") (some true)

same_session_authority_iff_example :
    (same_session_authority (some pending) (some active) ≡ true)
    ↔ (Complete pending × (pending ≡ in_state_of pending active))
same_session_authority_iff_example = same_session_authority_iff pending active

abbrev two : List Action
two = claims (codes "a") 7 ∷ claims (codes "b") 8 ∷ []
