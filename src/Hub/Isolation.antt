-- ===== src/Hub/Isolation.antt =====
-- What the hub of src/hub/service.ts lets through, and its routes over time.
use agent_tab_bridge.Base.{
  ℕ, ◌≡◌, refl, sym, ap, ◌∙◌, subst, ◌⊎◌, inl, inr, true, ◌&&◌, ◌||◌, &&-true, Bool-cases, Option,
  none, some, List, [], ◌∷◌, ◌==◌, eq_iff, eq_refl, ltb, length, All, if◌then◌else◌, if_ind,
  option_ind, nat_eq, list_eq, option_eq,
}
use agent_tab_bridge.Base.Maps.{lookup, insert, delete, lookup-insert}
use agent_tab_bridge.Base.Text.{Str}
use agent_tab_bridge.Framing.Hub.{encode_hub_frame}
use agent_tab_bridge.Routing.Envelope.{Direction, request, response, close, Address, Envelope}
use agent_tab_bridge.Hub.Routes.{
  Client, Route, Endpoint, Effect, write, destroy, Hub, Outcome, max_active_routes, same_address,
  same_route, deliver, is_machine, client_of, endpoint_at, route_of, bind_route, request_frame,
  on_stream, other_end, close_to, close_frame, response_frame, in_direction, machine_of,
  route_opaque_frame,
}

same_address-eq : (a b : Address) → same_address a b ≡ true → a ≡ b
same_address-eq a b h =
    let k = &&-true _ (a.stable_session_key == b.stable_session_key) h in
    let p = &&-true _ (a.principal_id == b.principal_id) k.0 in
    let m = &&-true (a.machine_id == b.machine_id) (a.endpoint_id == b.endpoint_id) p.0 in
    let e1 = (eq_iff a.machine_id b.machine_id).0 m.0 in
    let e2 = (eq_iff a.endpoint_id b.endpoint_id).0 m.1 in
    let e3 = (eq_iff a.principal_id b.principal_id).0 p.1 in
    let e4 = (eq_iff a.stable_session_key b.stable_session_key).0 k.1 in
    λ i. record {
      machine_id = e1 i;
      endpoint_id = e2 i;
      principal_id = e3 i;
      stable_session_key = e4 i;
    }

-- A connected client of a machine has this number.
abbrev pub Serves : Str → ℕ → List (ℕ × Client) → Type 0
Serves machine t [] = ⊥
Serves machine t ((id, c) ∷ cs) = ((id ≡ t) × (is_machine machine c ≡ true)) ⊎ Serves machine t cs

client_of-Serves :
    (machine : Str) (cs : List (ℕ × Client)) (t : ℕ)
    → client_of machine cs ≡ some t
    → Serves machine t cs
unfolding client_of
client_of-Serves machine [] t h = cc
client_of-Serves machine ((id, c) ∷ cs) t h = elim (Bool-cases (is_machine machine c)) [
  | inl b ↦ let found : some id ≡ some t = (rw b at h) in inl (cc found, b)
  | inr b ↦ inr (client_of-Serves machine cs t (rw b at h))
]

-- A route of this stream and address leads from one machine to a client of another, or back.
abbrev pub Along : Envelope → Str → ℕ → Hub → Route → Type 0
Along env machine t h r =
    (r.stream_id ≡ env.stream_id)
    × (r.address ≡ env.address)
    × (((machine ≡ r.source_machine_id) × Serves r.target_machine_id t h.clients)
        ⊎ ((machine ≡ r.target_machine_id) × Serves r.source_machine_id t h.clients))

abbrev pub Carried : ℕ → ℕ → List ℕ → Envelope → Hub → Hub → Effect → Type 0
Carried max client frame env h after (destroy c) = c ≡ client
Carried max client frame env h after (write t bytes) =
    (encode_hub_frame max frame ≡ some bytes)
    × ((machine : Str) × (r : Route) × (machine_of client h ≡ some machine)
        × ((lookup env.route_id h.routes ≡ some r) ⊎ (lookup env.route_id after.routes ≡ some r))
        × Along env machine t h r)

abbrev AllCarried : ℕ → ℕ → List ℕ → Envelope → Hub → Outcome → Type 0
AllCarried max client frame env h o = All (Carried max client frame env h o.hub) o.effects

on_stream-eq :
    (env : Envelope) (r : Route)
    → on_stream env r ≡ true
    → (r.stream_id ≡ env.stream_id) × (r.address ≡ env.address)
on_stream-eq env r h =
    let p = &&-true (env.stream_id == r.stream_id) _ h in
    (
      sym ((eq_iff env.stream_id r.stream_id).0 p.0),
      sym (same_address-eq env.address r.address p.1),
    )

module _ (max client : ℕ) (machine : Str) (frame : List ℕ) (env : Envelope) (h : Hub)
    (sender : machine_of client h ≡ some machine) where
  deliver-Carried :
      (t : ℕ) (after : Hub) (r : Route)
      → (lookup env.route_id h.routes ≡ some r) ⊎ (lookup env.route_id after.routes ≡ some r)
      → Along env machine t h r
      → AllCarried max client frame env h (deliver max client t frame after)
  deliver-Carried t after r known along =
      option_ind (AllCarried max client frame env h) (encode_hub_frame max frame) (λ e. (refl, tt))
        (λ bytes e. ((e, (machine, r, sender, known, along)), tt))

  bind_route-Carried :
      (t : ℕ) (e : Endpoint) (o : Option Route)
      → lookup env.route_id h.routes ≡ o
      → Serves e.machine_id t h.clients
      → AllCarried max client frame env h
          (bind_route max client t frame env.route_id (route_of machine e env) o h)
  bind_route-Carried t e none found serves =
      if_ind (AllCarried max client frame env h) (ltb (length h.routes) max_active_routes)
        (λ b.
          let r = route_of machine e env in
          deliver-Carried t (record h { routes = insert env.route_id r h.routes }) r
            (inr (
              lookup-insert env.route_id env.route_id r h.routes
              ∙ ap (λ b. if b then some r else lookup env.route_id h.routes)
                  (eq_refl env.route_id)))
            (refl, refl, inl (refl, serves)))
        (λ b. (refl, tt))
  bind_route-Carried t e (some r) found serves =
      if_ind (AllCarried max client frame env h) (same_route r (route_of machine e env))
        (λ b.
          let a = &&-true _ (same_address r.address env.address) b in
          let d = &&-true _ (r.stream_id == env.stream_id) a.0 in
          let s =
            &&-true (r.source_machine_id == machine) (r.target_machine_id == e.machine_id) d.0 in
          let target : r.target_machine_id ≡ e.machine_id =
            (eq_iff r.target_machine_id e.machine_id).0 s.1 in
          deliver-Carried t h r (inl found) (
            (eq_iff r.stream_id env.stream_id).0 d.1,
            same_address-eq r.address env.address a.1,
            inl (
              sym ((eq_iff r.source_machine_id machine).0 s.0),
              subst (λ x. Serves x t h.clients) (sym target) serves,
            ),
          ))
        (λ b. (refl, tt))

  request_frame-Carried :
      (endpoints : List Endpoint)
      → AllCarried max client frame env h (request_frame max client machine frame env endpoints h)
  unfolding request_frame
  request_frame-Carried endpoints =
      option_ind (AllCarried max client frame env h) (endpoint_at env.address endpoints)
        (λ e. (refl, tt))
        (λ e x.
          option_ind (AllCarried max client frame env h) (client_of e.machine_id h.clients)
            (λ y. (refl, tt))
            (λ t y.
              bind_route-Carried t e (lookup env.route_id h.routes) refl
                (client_of-Serves e.machine_id h.clients t y)))

  response_frame-Carried :
      AllCarried max client frame env h (response_frame max client machine frame env h)
  unfolding response_frame
  response_frame-Carried =
      option_ind (AllCarried max client frame env h) (lookup env.route_id h.routes)
        (λ e. (refl, tt))
        (λ r e.
          if_ind (AllCarried max client frame env h)
            (machine == r.target_machine_id && on_stream env r)
            (λ b.
              let p = &&-true (machine == r.target_machine_id) _ b in
              let q = on_stream-eq env r p.1 in
              option_ind (AllCarried max client frame env h)
                (client_of r.source_machine_id h.clients) (λ y. (refl, tt))
                (λ t y. deliver-Carried t h r (inl e) (
                  q.0,
                  q.1,
                  inr (
                    (eq_iff machine r.target_machine_id).0 p.0,
                    client_of-Serves r.source_machine_id h.clients t y,
                  ),
                )))
            (λ b. (refl, tt)))

  -- The other end of a route, for one of its ends.
  other_end-Along :
      (r : Route) (t : ℕ)
      → (machine == r.source_machine_id || machine == r.target_machine_id) ≡ true
      → Serves (other_end machine r) t h.clients
      → ((machine ≡ r.source_machine_id) × Serves r.target_machine_id t h.clients)
        ⊎ ((machine ≡ r.target_machine_id) × Serves r.source_machine_id t h.clients)
  other_end-Along r t ends serves = elim (Bool-cases (machine == r.source_machine_id)) [
    | inl b ↦ inl (
      (eq_iff machine r.source_machine_id).0 b,
      subst (λ x. Serves (if x then r.target_machine_id else r.source_machine_id) t h.clients) b
          serves,
    )
    | inr b ↦ inr (
      (eq_iff machine r.target_machine_id).0
          (ap (λ x. x || machine == r.target_machine_id) (sym b) ∙ ends),
      subst (λ x. Serves (if x then r.target_machine_id else r.source_machine_id) t h.clients) b
          serves,
    )
  ]

  close_frame-Carried :
      AllCarried max client frame env h (close_frame max client machine frame env h)
  unfolding close_frame
  close_frame-Carried =
      option_ind (AllCarried max client frame env h) (lookup env.route_id h.routes)
        (λ e. (refl, tt))
        (λ r e.
          if_ind (AllCarried max client frame env h)
            (on_stream env r && (machine == r.source_machine_id || machine == r.target_machine_id))
            (λ b.
              let p = &&-true (on_stream env r) _ b in
              let q = on_stream-eq env r p.0 in
              let after = record h { routes = delete env.route_id h.routes } in
              go after r e q.0 q.1 p.1 (client_of (other_end machine r) h.clients) refl)
            (λ b. (refl, tt)))
    where
      go :
          (after : Hub) (r : Route)
          → lookup env.route_id h.routes ≡ some r
          → r.stream_id ≡ env.stream_id
          → r.address ≡ env.address
          → (machine == r.source_machine_id || machine == r.target_machine_id) ≡ true
          → (o : Option ℕ) → client_of (other_end machine r) h.clients ≡ o
          → AllCarried max client frame env h (close_to max client o frame after)
      go after r e s a ends none y = tt
      go after r e s a ends (some t) y =
          deliver-Carried t after r (inl e)
            (s, a, other_end-Along r t ends (client_of-Serves (other_end machine r) h.clients t y))

-- What handling a frame writes is this frame, to a connected client at the other end of a route that
-- the frame names, was there before or is then, and has the frame's stream and address and the
-- sender's machine at one end; it destroys no connection but the sender's.
pub route_opaque_frame-Carried :
    (max client : ℕ) (frame : List ℕ) (env : Envelope) (endpoints : List Endpoint) (h : Hub)
    → All
        (Carried max client frame env h (route_opaque_frame max client frame env endpoints h).hub)
        (route_opaque_frame max client frame env endpoints h).effects
unfolding route_opaque_frame
route_opaque_frame-Carried max client frame env endpoints h =
    option_ind (AllCarried max client frame env h) (machine_of client h) (λ e. (refl, tt))
      (λ machine e. go machine e env.direction)
  where
    go :
        (machine : Str)
        → machine_of client h ≡ some machine
        → (d : Direction)
        → AllCarried max client frame env h
            (in_direction d max client machine frame env endpoints h)
    go machine e request = request_frame-Carried max client machine frame env h e endpoints
    go machine e response = response_frame-Carried max client machine frame env h e
    go machine e close = close_frame-Carried max client machine frame env h e
