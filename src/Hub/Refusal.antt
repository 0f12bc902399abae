-- ===== src/Hub/Refusal.antt =====
-- Frames that the hub of src/hub/service.ts refuses.
use agent_tab_bridge.Base.{
  ℕ, ◌≡◌, refl, true_false, some_none, true, ◌&&◌, ◌||◌, Option, none, some, List, ◌==◌, ltb,
  length, if_ind, option_ind, nat_eq, list_eq, option_eq,
}
use agent_tab_bridge.Base.Maps.{lookup, insert, delete}
use agent_tab_bridge.Base.Text.{Str}
use agent_tab_bridge.Framing.Hub.{encode_hub_frame}
use agent_tab_bridge.Routing.Envelope.{Direction, request, response, close, Envelope}
use agent_tab_bridge.Hub.Routes.{
  Route, Endpoint, Hub, Outcome, max_active_routes, same_route, refuse, deliver, client_of,
  endpoint_at, route_of, bind_route, request_frame, on_stream, other_end, close_to, close_frame,
  response_frame, in_direction, machine_of, route_opaque_frame,
}

-- An outcome that changes nothing if it is a refusal.
abbrev Harmless : ℕ → Hub → Outcome → Type 0
Harmless client h o = o.refused ≡ true → o ≡ refuse client h

module _ (max client : ℕ) (frame bytes : List ℕ) (env : Envelope) (h : Hub)
    (fits : encode_hub_frame max frame ≡ some bytes) where
  deliver-Harmless : (t : ℕ) (after : Hub) → Harmless client h (deliver max client t frame after)
  deliver-Harmless t after =
      option_ind (Harmless client h) (encode_hub_frame max frame)
        (λ e. some_none (encode_hub_frame max frame) fits e) (λ b e r. true_false r refl)

  bind_route-Harmless :
      (t : ℕ) (r : Route) (o : Option Route)
      → Harmless client h (bind_route max client t frame env.route_id r o h)
  bind_route-Harmless t r none =
      if_ind (Harmless client h) (ltb (length h.routes) max_active_routes)
        (λ e. deliver-Harmless t (record h { routes = insert env.route_id r h.routes }))
        (λ e x. refl)
  bind_route-Harmless t r (some existing) =
      if_ind (Harmless client h) (same_route existing r) (λ e. deliver-Harmless t h) (λ e x. refl)

  in_direction-Harmless :
      (d : Direction) (machine : Str) (endpoints : List Endpoint)
      → Harmless client h (in_direction d max client machine frame env endpoints h)
  unfolding request_frame response_frame close_frame
  in_direction-Harmless request machine endpoints =
      option_ind (Harmless client h) (endpoint_at env.address endpoints) (λ e x. refl)
        (λ e x.
          option_ind (Harmless client h) (client_of e.machine_id h.clients) (λ y z. refl)
            (λ t y. bind_route-Harmless t (route_of machine e env) (lookup env.route_id h.routes)))
  in_direction-Harmless response machine endpoints =
      option_ind (Harmless client h) (lookup env.route_id h.routes) (λ e x. refl)
        (λ r e.
          if_ind (Harmless client h) (machine == r.target_machine_id && on_stream env r)
            (λ x.
              option_ind (Harmless client h) (client_of r.source_machine_id h.clients) (λ y z. refl)
                (λ t y. deliver-Harmless t h))
            (λ x y. refl))
  in_direction-Harmless close machine endpoints =
      option_ind (Harmless client h) (lookup env.route_id h.routes) (λ e x. refl)
        (λ r e.
          if_ind (Harmless client h)
            (on_stream env r && (machine == r.source_machine_id || machine == r.target_machine_id))
            (λ x. go (client_of (other_end machine r) h.clients)) (λ x y. refl))
    where
      after : Hub
      after = record h { routes = delete env.route_id h.routes }

      go : (o : Option ℕ) → Harmless client h (close_to max client o frame after)
      go none = λ x. true_false x refl
      go (some t) = deliver-Harmless t after

-- A frame that fits into the hub's limit and is refused changes no route and no client, is written
-- to nobody, and destroys the connection of its sender.
pub route_opaque_frame-refuses :
    (max client : ℕ) (frame bytes : List ℕ) (env : Envelope) (endpoints : List Endpoint) (h : Hub)
    → encode_hub_frame max frame ≡ some bytes
    → (route_opaque_frame max client frame env endpoints h).refused ≡ true
    → route_opaque_frame max client frame env endpoints h ≡ refuse client h
unfolding route_opaque_frame
route_opaque_frame-refuses max client frame bytes env endpoints h fits =
    option_ind (Harmless client h) (machine_of client h) (λ e x. refl)
      (λ machine e.
        in_direction-Harmless max client frame bytes env h fits env.direction machine endpoints)
