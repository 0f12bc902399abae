-- ===== src/Hub/Routes.antt =====
-- Routes through the hub: `routeOpaqueFrame` and `forgetRoutes` of `HubService` in
-- src/hub/service.ts, with the clients that they are for. The endpoints are those that the stored
-- state has when a frame is handled.
use agent_tab_bridge.Base.{
  ℕ, Bool, true, false, ◌&&◌, ◌||◌, Option, none, some, List, [], ◌∷◌, ◌==◌, ltb, length,
  if◌then◌else◌, nat_eq, list_eq, option_eq,
}
use agent_tab_bridge.Base.Maps.{lookup, insert, delete}
use agent_tab_bridge.Base.Text.{Str}
use agent_tab_bridge.Framing.Hub.{encode_hub_frame}
use agent_tab_bridge.Routing.Envelope.{Direction, request, response, close, Address, Envelope}

-- `HubClient`; `connected` says that the service's set has it.
pub record Client : Type 0 where
  pub machine_id : Option Str
  pub connected : Bool

-- A value of the map of routes.
pub record Route : Type 0 where
  pub source_machine_id : Str
  pub target_machine_id : Str
  pub stream_id : Str
  pub address : Address

-- What `HubEndpointRecord` has for routing.
pub record Endpoint : Type 0 where
  pub machine_id : Str
  pub endpoint_id : Str
  pub enabled : Bool

pub data Effect : Type 0 where
  write : ℕ → List ℕ → Effect
  destroy : ℕ → Effect

pub record Hub : Type 0 where
  pub clients : List (ℕ × Client)
  pub routes : List (Str × Route)

abbrev pub empty_hub : Hub
empty_hub = record { clients = []; routes = [] }

-- What a frame leads to; one that is refused has thrown.
pub record Outcome : Type 0 where
  pub hub : Hub
  pub effects : List Effect
  pub refused : Bool

-- `HUB_MAX_ACTIVE_ROUTES`.
abbrev pub max_active_routes : ℕ
max_active_routes = 1024

abbrev pub same_address : Address → Address → Bool
same_address a b =
    a.machine_id == b.machine_id
    && a.endpoint_id == b.endpoint_id
    && a.principal_id == b.principal_id
    && a.stable_session_key == b.stable_session_key

abbrev pub same_route : Route → Route → Bool
same_route a b =
    a.source_machine_id == b.source_machine_id
    && a.target_machine_id == b.target_machine_id
    && a.stream_id == b.stream_id
    && same_address a.address b.address

-- An exception: the connection that sent the frame is destroyed.
abbrev pub refuse : ℕ → Hub → Outcome
refuse client h = record { hub = h; effects = destroy client ∷ []; refused = true }

abbrev pub deliver : ℕ → ℕ → ℕ → List ℕ → Hub → Outcome
deliver max client target frame h = elim (encode_hub_frame max frame) [
  | none ↦ refuse client h
  | some bytes ↦ record { hub = h; effects = write target bytes ∷ []; refused = false }
]

abbrev pub is_machine : Str → Client → Bool
is_machine machine c = c.connected && c.machine_id == some machine

-- The first client of a machine.
unfoldable pub client_of : Str → List (ℕ × Client) → Option ℕ
client_of machine [] = none
client_of machine ((id, c) ∷ cs) =
    let rest = client_of machine cs in if is_machine machine c then some id else rest

-- The first enabled endpoint of an address.
unfoldable pub endpoint_at : Address → List Endpoint → Option Endpoint
endpoint_at a [] = none
endpoint_at a (e ∷ es) =
    let rest = endpoint_at a es in
    if e.machine_id == a.machine_id && e.endpoint_id == a.endpoint_id && e.enabled
    then some e
    else rest

abbrev pub route_of : Str → Endpoint → Envelope → Route
route_of machine e env = record {
  source_machine_id = machine;
  target_machine_id = e.machine_id;
  stream_id = env.stream_id;
  address = env.address;
}

abbrev pub bind_route : ℕ → ℕ → ℕ → List ℕ → Str → Route → Option Route → Hub → Outcome
bind_route max client target frame route_id route (some existing) h =
    if same_route existing route then deliver max client target frame h else refuse client h
bind_route max client target frame route_id route none h =
    if ltb (length h.routes) max_active_routes
    then deliver max client target frame (record h { routes = insert route_id route h.routes })
    else refuse client h

-- A request opens its route, or goes along the one that it has opened.
unfoldable pub request_frame : ℕ → ℕ → Str → List ℕ → Envelope → List Endpoint → Hub → Outcome
request_frame max client machine frame env endpoints h = elim (endpoint_at env.address endpoints) [
  | none ↦ refuse client h
  | some e ↦ elim (client_of e.machine_id h.clients) [
    | none ↦ refuse client h
    | some target ↦
        bind_route max client target frame env.route_id (route_of machine e env)
          (lookup env.route_id h.routes) h
  ]
]

abbrev pub on_stream : Envelope → Route → Bool
on_stream env r = env.stream_id == r.stream_id && same_address env.address r.address

abbrev pub other_end : Str → Route → Str
other_end machine r =
    if machine == r.source_machine_id then r.target_machine_id else r.source_machine_id

abbrev pub close_to : ℕ → ℕ → Option ℕ → List ℕ → Hub → Outcome
close_to max client none frame h = record { hub = h; effects = []; refused = false }
close_to max client (some target) frame h = deliver max client target frame h

-- Each end may close the route.
unfoldable pub close_frame : ℕ → ℕ → Str → List ℕ → Envelope → Hub → Outcome
close_frame max client machine frame env h = elim (lookup env.route_id h.routes) [
  | none ↦ refuse client h
  | some r ↦
      if on_stream env r && (machine == r.source_machine_id || machine == r.target_machine_id)
      then close_to max client (client_of (other_end machine r) h.clients) frame
          (record h { routes = delete env.route_id h.routes })
      else refuse client h
]

-- Only the target may respond.
unfoldable pub response_frame : ℕ → ℕ → Str → List ℕ → Envelope → Hub → Outcome
response_frame max client machine frame env h = elim (lookup env.route_id h.routes) [
  | none ↦ refuse client h
  | some r ↦
      if machine == r.target_machine_id && on_stream env r
      then elim (client_of r.source_machine_id h.clients) [
        | none ↦ refuse client h
        | some target ↦ deliver max client target frame h
      ]
      else refuse client h
]

abbrev pub in_direction :
    Direction → ℕ → ℕ → Str → List ℕ → Envelope → List Endpoint → Hub → Outcome
in_direction request max client machine frame env endpoints h =
    request_frame max client machine frame env endpoints h
in_direction close max client machine frame env endpoints h =
    close_frame max client machine frame env h
in_direction response max client machine frame env endpoints h =
    response_frame max client machine frame env h

abbrev pub machine_of : ℕ → Hub → Option Str
machine_of client h = elim (lookup client h.clients) [ none ↦ none | some c ↦ c.machine_id ]

-- `routeOpaqueFrame`.
unfoldable pub route_opaque_frame : ℕ → ℕ → List ℕ → Envelope → List Endpoint → Hub → Outcome
unfolding request_frame close_frame response_frame
route_opaque_frame max client frame env endpoints h = elim (machine_of client h) [
  | none ↦ refuse client h
  | some machine ↦ in_direction env.direction max client machine frame env endpoints h
]

-- `forgetRoutes`.
unfoldable pub forget_routes : Str → List (Str × Route) → List (Str × Route)
forget_routes machine [] = []
forget_routes machine ((id, r) ∷ rs) =
    let rest = forget_routes machine rs in
    if r.source_machine_id == machine || r.target_machine_id == machine
    then rest
    else (id, r) ∷ rest

-- Of `forgetMachine`: its connections no longer have a machine.
unfoldable pub forget_clients : Str → List (ℕ × Client) → List (ℕ × Client)
forget_clients machine [] = []
forget_clients machine ((id, c) ∷ cs) =
    let rest = forget_clients machine cs in
    if is_machine machine c then (id, record c { machine_id = none }) ∷ rest else (id, c) ∷ rest

unfoldable pub forget_machine : Str → Hub → Hub
unfolding forget_clients forget_routes
forget_machine machine h = record {
  clients = forget_clients machine h.clients;
  routes = forget_routes machine h.routes;
}

abbrev pub leave : ℕ → Option Client → Hub → Hub
leave client none h = h
leave client (some c) h = record {
  clients = insert client (record c { connected = false }) h.clients;
  routes = elim c.machine_id [ none ↦ h.routes | some machine ↦ forget_routes machine h.routes ];
}

-- A connection closes: its routes are forgotten.
unfoldable pub client_closes : ℕ → Hub → Hub
unfolding forget_routes
client_closes client h = leave client (lookup client h.clients) h

-- What happens to the hub: a connection is accepted, with the machine that its certificate names or
-- none; it is paired with a machine; it sends an envelope; it closes; a machine is forgotten.
pub data Event : Type 0 where
  accepts : ℕ → Option Str → Event
  pairs : ℕ → Str → Event
  routes : ℕ → List ℕ → Envelope → List Endpoint → Event
  closes : ℕ → Event
  forgets : Str → Event

unfoldable pub step : ℕ → Event → Hub → Hub
unfolding route_opaque_frame client_closes forget_machine
step max (accepts client machine) h = record h {
  clients = insert client (record { machine_id = machine; connected = true }) h.clients;
}
step max (pairs client machine) h = elim (lookup client h.clients) [
  | none ↦ h
  | some c ↦ record h { clients = insert client (record c { machine_id = some machine }) h.clients }
]
step max (routes client frame env endpoints) h =
    (route_opaque_frame max client frame env endpoints h).hub
step max (closes client) h = client_closes client h
step max (forgets machine) h = forget_machine machine h

unfoldable pub run : ℕ → List Event → Hub → Hub
unfolding step
run max [] h = h
run max (e ∷ es) h = run max es (step max e h)
