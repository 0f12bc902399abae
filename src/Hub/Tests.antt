-- ===== src/Hub/Tests.antt =====
-- Two machines and an outsider at the hub of src/hub/service.ts.
use agent_tab_bridge.Base.{
  ◌≡◌, refl, ◌≤◌, length, true, some, List, [], ◌∷◌, All, list_eq, nat_eq, option_eq,
}
use agent_tab_bridge.Base.Maps.{lookup, insert}
use agent_tab_bridge.Base.Text.{codes}
use agent_tab_bridge.Base.Bytes.{write_be}
use agent_tab_bridge.Framing.Hub.{encode_hub_frame}
use agent_tab_bridge.Routing.Envelope.{Direction, request, response, Envelope}
use agent_tab_bridge.Hub.Routes.{
  Endpoint, Hub, empty_hub, Event, accepts, routes, step, run, route_opaque_frame,
  max_active_routes, refuse, request_frame, response_frame, endpoint_at, client_of,
}
use agent_tab_bridge.Hub.Isolation.{Carried, route_opaque_frame-Carried}
use agent_tab_bridge.Hub.Table.{run-Bounded}
use agent_tab_bridge.Hub.Binding.{Keeps, step-Keeps}
use agent_tab_bridge.Hub.Refusal.{route_opaque_frame-refuses}

abbrev envelope : Direction → Envelope
envelope d = record {
  direction = d;
  route_id = codes "r";
  stream_id = codes "s";
  address = record {
    machine_id = codes "b";
    endpoint_id = codes "e";
    principal_id = codes "p";
    stable_session_key = codes "k";
  };
  payload = codes "QQ";
}

abbrev endpoints : List Endpoint
endpoints = record { machine_id = codes "b"; endpoint_id = codes "e"; enabled = true } ∷ []

-- Clients 1 of machine a, 2 of machine b and 3 of machine c; 1 has opened a route to b.
abbrev opened : List Event
opened =
    accepts 1 (some (codes "a"))
    ∷ accepts 2 (some (codes "b"))
    ∷ accepts 3 (some (codes "c"))
    ∷ routes 1 (7 ∷ []) (envelope request) endpoints
    ∷ []

abbrev opened_hub : Hub
opened_hub = run 100 opened empty_hub

route_opaque_frame-Carried_example :
    All
      (Carried 100 2
        (8 ∷ [])
        (envelope response)
        opened_hub
        (route_opaque_frame 100 2 (8 ∷ []) (envelope response) endpoints opened_hub).hub)
      (route_opaque_frame 100 2 (8 ∷ []) (envelope response) endpoints opened_hub).effects
route_opaque_frame-Carried_example =
    route_opaque_frame-Carried 100 2 (8 ∷ []) (envelope response) endpoints opened_hub

run-Bounded_example : length (run 100 opened empty_hub).routes ≤ max_active_routes
run-Bounded_example = run-Bounded 100 opened

step-Keeps_example :
    Keeps opened_hub.routes
      (step 100 (routes 3 (9 ∷ []) (envelope request) endpoints) opened_hub).routes
step-Keeps_example = step-Keeps 100 opened (routes 3 (9 ∷ []) (envelope request) endpoints)

route_opaque_frame-refuses_example :
    route_opaque_frame 100 3 (9 ∷ []) (envelope response) endpoints opened_hub ≡ refuse 3 opened_hub
unfolding encode_hub_frame write_be route_opaque_frame response_frame request_frame run step lookup
    insert endpoint_at client_of
route_opaque_frame-refuses_example =
    route_opaque_frame-refuses 100 3 (9 ∷ []) (0 ∷ 0 ∷ 0 ∷ 1 ∷ 9 ∷ []) (envelope response) endpoints
      opened_hub refl refl
