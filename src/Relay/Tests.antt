-- ===== src/Relay/Tests.antt =====
-- A client that drives a tab through extension-relay/relay-bridge.ts, and methods that the policies
-- of relay-bridge.ts and chrome-extension/modules/cdp-policy.js judge.
use agent_tab_bridge.Base.{
  ℕ, ◌≡◌, true, not, ◌&&◌, some, List, [], ◌∷◌, All, list_eq, nat_eq, contains,
}
use agent_tab_bridge.Base.Text.{Str, codes}
use agent_tab_bridge.Json.{Json, num, str, bool, arr, from_list}
use agent_tab_bridge.Relay.Policy.{
  page, classify_cdp_method, is_allowed, is_permitted_page_cdp_method, well_formed, domain_of,
  inherited_names, is_permitted-eq-classify,
}
use agent_tab_bridge.Relay.State.{new_bridge, object}
use agent_tab_bridge.Relay.Steps.{
  Event, extension_connects, extension_sends, client_connects, client_sends, job_runs, disposes,
  detach_ends, run,
}
use agent_tab_bridge.Relay.Safety.Invariant.{Permitted}
use agent_tab_bridge.Relay.Safety.Closing.{uses}
use agent_tab_bridge.Relay.Safety.Withdrawn.{run-uses_disposed}
use agent_tab_bridge.Relay.Safety.Run.{Reported, run-Permitted}

is_permitted-eq-classify_example : is_permitted_page_cdp_method (codes "constructor.keys") ≡ (
    well_formed (codes "constructor.keys")
    && is_allowed (classify_cdp_method (codes "constructor.keys") page)
    && not (contains inherited_names (domain_of (codes "constructor.keys"))))
is_permitted-eq-classify_example = is_permitted-eq-classify (codes "constructor.keys")

abbrev snapshot : Json
snapshot = arr (
    from_list (
      object (
        (codes "tabId", num 7)
        ∷ (codes "url", str (codes "https://a.test"))
        ∷ (codes "title", str (codes "A"))
        ∷ (codes "active", bool true)
        ∷ [])
      ∷ []))

abbrev request : ℕ → Str → List (Str × Json) → Str → Json
request id method params session = object (
    (codes "id", num id)
    ∷ (codes "method", str method)
    ∷ (codes "params", object params)
    ∷ (codes "sessionId", str session)
    ∷ [])

abbrev tab_session : Str
tab_session = codes "agent-tab-bridge-tab-7-1"

-- A tab is reported, attached for a client, and driven.
abbrev drive : List Event
drive =
    extension_connects 0
    ∷ extension_sends 0
        (some (object ((codes "type", str (codes "hello")) ∷ (codes "tabs", snapshot) ∷ [])))
    ∷ client_connects 1
    ∷ client_sends 1 (
        some (
          request 1 (codes "Target.attachToTarget")
            ((codes "targetId", str (codes "agent-tab-bridge-target-7")) ∷ []) []))
    ∷ extension_sends 0
        (some (object ((codes "type", str (codes "result")) ∷ (codes "seq", num 1) ∷ [])))
    ∷ job_runs 0
    ∷ job_runs 0
    ∷ client_sends 1 (some (request 2 (codes "Page.reload") [] tab_session))
    ∷ client_sends 1 (some (request 3 (codes "Network.getCookies") [] tab_session))
    ∷ []

run-Permitted_example : All (Permitted (Reported drive)) (run drive new_bridge).log
run-Permitted_example = run-Permitted drive

abbrev after : List Event
after =
    client_sends 1 (some (request 4 (codes "Page.reload") [] tab_session))
    ∷ job_runs 0
    ∷ detach_ends
    ∷ []

run-uses_disposed_example :
    uses (run (disposes ∷ after) (run drive new_bridge)).log ≡ uses (run drive new_bridge).log
run-uses_disposed_example = run-uses_disposed after (run drive new_bridge)
