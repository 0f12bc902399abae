-- ===== src/Hub/Table.antt =====
-- The table of routes of the hub of src/hub/service.ts over time.
use agent_tab_bridge.Base.{
  ℕ, suc, ◌≤◌, ◌&&◌, ◌||◌, Option, none, some, List, [], ◌∷◌, ◌==◌, ltb, ltb→lt, length, if_ind,
  option_ind, nat_eq, list_eq, option_eq, arith,
}
use agent_tab_bridge.Base.Maps.{lookup, insert, delete}
use agent_tab_bridge.Base.Text.{Str}
use agent_tab_bridge.Framing.Hub.{encode_hub_frame}
use agent_tab_bridge.Routing.Envelope.{Direction, request, response, close, Envelope}
use agent_tab_bridge.Hub.Routes.{
  Client, Route, Endpoint, Hub, empty_hub, Outcome, max_active_routes, same_route, deliver,
  client_of, endpoint_at, route_of, bind_route, request_frame, on_stream, other_end, close_to,
  close_frame, response_frame, in_direction, machine_of, route_opaque_frame, forget_routes,
  forget_machine, leave, client_closes, Event, accepts, pairs, routes, closes, forgets, step, run,
}

length-insert_le :
    (k : Str) (v : Route) (rs : List (Str × Route)) → length (insert k v rs) ≤ suc (length rs)
unfolding insert
length-insert_le k v [] = omega arith
length-insert_le k v ((j, w) ∷ rs) = ground (length-insert_le k v rs, arith)

length-delete_le : (k : Str) (rs : List (Str × Route)) → length (delete k rs) ≤ length rs
unfolding delete
length-delete_le k [] = omega arith
length-delete_le k ((j, w) ∷ rs) = ground (length-delete_le k rs, arith)

length-forget_routes_le :
    (machine : Str) (rs : List (Str × Route)) → length (forget_routes machine rs) ≤ length rs
unfolding forget_routes
length-forget_routes_le machine [] = omega arith
length-forget_routes_le machine ((id, r) ∷ rs) = ground (length-forget_routes_le machine rs, arith)

abbrev Bounded : Hub → Type 0
Bounded h = length h.routes ≤ max_active_routes

abbrev OutcomeBounded : Outcome → Type 0
OutcomeBounded o = Bounded o.hub

module _ (max client : ℕ) (frame : List ℕ) (env : Envelope) where
  deliver-Bounded : (t : ℕ) (h : Hub) → Bounded h → OutcomeBounded (deliver max client t frame h)
  deliver-Bounded t h b =
      option_ind OutcomeBounded (encode_hub_frame max frame) (λ e. b) (λ bytes e. b)

  bind_route-Bounded :
      (t : ℕ) (r : Route) (o : Option Route) (h : Hub)
      → Bounded h
      → OutcomeBounded (bind_route max client t frame env.route_id r o h)
  bind_route-Bounded t r none h b =
      if_ind OutcomeBounded (ltb (length h.routes) max_active_routes)
        (λ e.
          deliver-Bounded t (record h { routes = insert env.route_id r h.routes })
            (fits (length-insert_le env.route_id r h.routes)
              (ltb→lt (length h.routes) max_active_routes e)))
        (λ e. b)
    where
      fits : {a n m : ℕ} → a ≤ suc n → suc n ≤ m → a ≤ m
      fits p q = omega (arith, p, q)
  bind_route-Bounded t r (some existing) h b =
      if_ind OutcomeBounded (same_route existing r) (λ e. deliver-Bounded t h b) (λ e. b)

  in_direction-Bounded :
      (d : Direction) (machine : Str) (endpoints : List Endpoint) (h : Hub)
      → Bounded h
      → OutcomeBounded (in_direction d max client machine frame env endpoints h)
  unfolding request_frame response_frame close_frame
  in_direction-Bounded request machine endpoints h b =
      option_ind OutcomeBounded (endpoint_at env.address endpoints) (λ e. b)
        (λ e x.
          option_ind OutcomeBounded (client_of e.machine_id h.clients) (λ y. b)
            (λ t y.
              bind_route-Bounded t (route_of machine e env) (lookup env.route_id h.routes) h b))
  in_direction-Bounded response machine endpoints h b =
      option_ind OutcomeBounded (lookup env.route_id h.routes) (λ e. b)
        (λ r e.
          if_ind OutcomeBounded (machine == r.target_machine_id && on_stream env r)
            (λ x.
              option_ind OutcomeBounded (client_of r.source_machine_id h.clients) (λ y. b)
                (λ t y. deliver-Bounded t h b))
            (λ x. b))
  in_direction-Bounded close machine endpoints h b =
      let after = record h { routes = delete env.route_id h.routes } in
      let fits : Bounded after = omega (arith, b, length-delete_le env.route_id h.routes) in
      option_ind OutcomeBounded (lookup env.route_id h.routes) (λ e. b)
        (λ r e.
          if_ind OutcomeBounded
            (on_stream env r && (machine == r.source_machine_id || machine == r.target_machine_id))
            (λ x. go after fits (client_of (other_end machine r) h.clients)) (λ x. b))
    where
      go :
          (after : Hub)
          → Bounded after
          → (o : Option ℕ) → OutcomeBounded (close_to max client o frame after)
      go after fits none = fits
      go after fits (some t) = deliver-Bounded t after fits

leave-Bounded : (client : ℕ) (o : Option Client) (h : Hub) → Bounded h → Bounded (leave client o h)
leave-Bounded client none h b = b
leave-Bounded client (some c) h b =
    option_ind (λ rs. length rs ≤ max_active_routes) c.machine_id (λ e. b)
      (λ machine e. fits (length-forget_routes_le machine h.routes) b)
  where
    fits : {a n m : ℕ} → a ≤ n → n ≤ m → a ≤ m
    fits p q = omega (arith, p, q)

step-Bounded : (max : ℕ) (e : Event) (h : Hub) → Bounded h → Bounded (step max e h)
unfolding step route_opaque_frame client_closes forget_machine
step-Bounded max (accepts client machine) h b = b
step-Bounded max (pairs client machine) h b =
    option_ind Bounded (lookup client h.clients) (λ e. b) (λ c e. b)
step-Bounded max (routes client frame env endpoints) h b =
    option_ind OutcomeBounded (machine_of client h) (λ e. b)
      (λ machine e. in_direction-Bounded max client frame env env.direction machine endpoints h b)
step-Bounded max (closes client) h b = leave-Bounded client (lookup client h.clients) h b
step-Bounded max (forgets machine) h b = omega (arith, b, length-forget_routes_le machine h.routes)

run_from_Bounded : (max : ℕ) (es : List Event) (h : Hub) → Bounded h → Bounded (run max es h)
unfolding run
run_from_Bounded max [] h b = b
run_from_Bounded max (e ∷ es) h b = run_from_Bounded max es (step max e h) (step-Bounded max e h b)

-- However connections come, send, close and are forgotten, the hub never has more routes than its
-- limit.
pub run-Bounded :
    (max : ℕ) (es : List Event) → length (run max es empty_hub).routes ≤ max_active_routes
run-Bounded max es = run_from_Bounded max es empty_hub (omega arith)
