-- ===== src/Hub/Binding.antt =====
-- What a route of the hub of src/hub/service.ts is bound to.
use agent_tab_bridge.Base.{
  ℕ, ◌≡◌, refl, some_none, ap, ◌∙◌, subst, ◌⊎◌, inl, inr, ◌&&◌, ◌||◌, Bool-cases, Option, none,
  some, List, [], ◌∷◌, ◌==◌, eq_iff, ltb, length, if◌then◌else◌, if_ind, option_ind, nat_eq,
  list_eq, option_eq,
}
use agent_tab_bridge.Base.Maps.{
  Distinct, insert-Distinct, delete-Distinct, lookup, insert, delete, lookup-insert, lookup-delete,
}
use agent_tab_bridge.Base.Text.{Str}
use agent_tab_bridge.Framing.Hub.{encode_hub_frame}
use agent_tab_bridge.Routing.Envelope.{Direction, request, response, close, Envelope}
use agent_tab_bridge.Hub.Routes.{
  Client, Route, Endpoint, Hub, empty_hub, Outcome, max_active_routes, same_route, deliver,
  client_of, endpoint_at, route_of, bind_route, request_frame, on_stream, other_end, close_to,
  close_frame, response_frame, in_direction, machine_of, route_opaque_frame, forget_routes,
  forget_machine, leave, client_closes, Event, accepts, pairs, routes, closes, forgets, step, run,
}

abbrev Lacks : Str → List (Str × Route) → Type 0
Lacks id rs = lookup id rs ≡ none

abbrev pub KeepsOne : Str → Route → List (Str × Route) → Type 0
KeepsOne id r rs = (lookup id rs ≡ some r) ⊎ (lookup id rs ≡ none)

forget_keeps_none :
    (machine id : Str) (rs : List (Str × Route))
    → lookup id rs ≡ none
    → lookup id (forget_routes machine rs) ≡ none
unfolding forget_routes lookup
forget_keeps_none machine id [] d = refl
forget_keeps_none machine id ((j, r) ∷ rs) d = elim (Bool-cases (j == id)) [
  | inl e ↦ cc (rw e at d)
  | inr e ↦
      let ih = forget_keeps_none machine id rs (rw e at d) in
      if_ind (Lacks id) (r.source_machine_id == machine || r.target_machine_id == machine) (λ x. ih)
        (λ x. ap (λ b. if b then some r else lookup id (forget_routes machine rs)) e ∙ ih)
]

forget-Distinct :
    (machine : Str) (rs : List (Str × Route)) → Distinct rs → Distinct (forget_routes machine rs)
unfolding forget_routes
forget-Distinct machine [] d = tt
forget-Distinct machine ((j, r) ∷ rs) d =
    if_ind Distinct (r.source_machine_id == machine || r.target_machine_id == machine)
      (λ e. forget-Distinct machine rs d.1)
      (λ e. (forget_keeps_none machine j rs d.0, forget-Distinct machine rs d.1))

-- A route that is there stays as it is, or goes.
abbrev pub Keeps : List (Str × Route) → List (Str × Route) → Type 0
Keeps rs after = (id : Str) (r : Route) → lookup id rs ≡ some r → KeepsOne id r after

forget-Keeps :
    (machine : Str) (rs : List (Str × Route)) → Distinct rs → Keeps rs (forget_routes machine rs)
unfolding forget_routes lookup
forget-Keeps machine [] d id r h = inl h
forget-Keeps machine ((j, x) ∷ rs) d id r h = elim (Bool-cases (j == id)) [
  | inl e ↦
      if_ind (KeepsOne id r) (x.source_machine_id == machine || x.target_machine_id == machine)
        (λ b. inr (
          subst (λ i. lookup i (forget_routes machine rs) ≡ none) ((eq_iff j id).0 e)
            (forget_keeps_none machine j rs d.0)))
        (λ b.
          inl
            (ap (λ y. if y then some x else lookup id (forget_routes machine rs)) e ∙ (rw e at h)))
  | inr e ↦
      let ih = forget-Keeps machine rs d.1 id r (rw e at h) in
      if_ind (KeepsOne id r) (x.source_machine_id == machine || x.target_machine_id == machine)
        (λ b. ih)
        (λ b. elim ih [
          | inl y ↦ inl (ap (λ y. if y then some x else lookup id (forget_routes machine rs)) e ∙ y)
          | inr y ↦ inr (ap (λ y. if y then some x else lookup id (forget_routes machine rs)) e ∙ y)
        ])
]

delete-Keeps : (k : Str) (rs : List (Str × Route)) → Keeps rs (delete k rs)
delete-Keeps k rs id r h = elim (Bool-cases (k == id)) [
  | inl e ↦ inr (lookup-delete k id rs ∙ ap (λ b. if b then none else lookup id rs) e)
  | inr e ↦ inl (lookup-delete k id rs ∙ ap (λ b. if b then none else lookup id rs) e ∙ h)
]

insert-Keeps :
    (k : Str) (v : Route) (rs : List (Str × Route)) → lookup k rs ≡ none → Keeps rs (insert k v rs)
insert-Keeps k v rs fresh id r h = elim (Bool-cases (k == id)) [
  | inl e ↦ some_none (lookup id rs) h (subst (λ i. lookup i rs ≡ none) ((eq_iff k id).0 e) fresh)
  | inr e ↦ inl (lookup-insert k id v rs ∙ ap (λ b. if b then some v else lookup id rs) e ∙ h)
]

-- What follows a table is one without two routes of a name, and keeps its routes.
abbrev Follows : List (Str × Route) → List (Str × Route) → Type 0
Follows rs after = Distinct after × Keeps rs after

abbrev OutcomeFollows : Hub → Outcome → Type 0
OutcomeFollows h o = Follows h.routes o.hub.routes

abbrev HubFollows : Hub → Hub → Type 0
HubFollows h after = Follows h.routes after.routes

same-Follows : (rs : List (Str × Route)) → Distinct rs → Follows rs rs
same-Follows rs d = (d, λ id r h. inl h)

module _ (max client : ℕ) (frame : List ℕ) (env : Envelope) (h : Hub) (d : Distinct h.routes) where
  deliver-Follows :
      (t : ℕ) (after : Hub)
      → Follows h.routes after.routes
      → OutcomeFollows h (deliver max client t frame after)
  deliver-Follows t after f =
      option_ind (OutcomeFollows h) (encode_hub_frame max frame) (λ e. f) (λ bytes e. f)

  bind_route-Follows :
      (t : ℕ) (r : Route) (o : Option Route)
      → lookup env.route_id h.routes ≡ o
      → OutcomeFollows h (bind_route max client t frame env.route_id r o h)
  bind_route-Follows t r none e =
      if_ind (OutcomeFollows h) (ltb (length h.routes) max_active_routes)
        (λ x.
          deliver-Follows t (record h { routes = insert env.route_id r h.routes })
            (insert-Distinct env.route_id r h.routes d, insert-Keeps env.route_id r h.routes e))
        (λ x. same-Follows h.routes d)
  bind_route-Follows t r (some existing) e =
      if_ind (OutcomeFollows h) (same_route existing r)
        (λ x. deliver-Follows t h (same-Follows h.routes d)) (λ x. same-Follows h.routes d)

  in_direction-Follows :
      (way : Direction) (machine : Str) (endpoints : List Endpoint)
      → OutcomeFollows h (in_direction way max client machine frame env endpoints h)
  unfolding request_frame response_frame close_frame
  in_direction-Follows request machine endpoints =
      let same = same-Follows h.routes d in
      option_ind (OutcomeFollows h) (endpoint_at env.address endpoints) (λ e. same)
        (λ e x.
          option_ind (OutcomeFollows h) (client_of e.machine_id h.clients) (λ y. same)
            (λ t y.
              bind_route-Follows t (route_of machine e env) (lookup env.route_id h.routes) refl))
  in_direction-Follows response machine endpoints =
      let same = same-Follows h.routes d in
      option_ind (OutcomeFollows h) (lookup env.route_id h.routes) (λ e. same)
        (λ r e.
          if_ind (OutcomeFollows h) (machine == r.target_machine_id && on_stream env r)
            (λ x.
              option_ind (OutcomeFollows h) (client_of r.source_machine_id h.clients) (λ y. same)
                (λ t y. deliver-Follows t h same))
            (λ x. same))
  in_direction-Follows close machine endpoints =
      let same = same-Follows h.routes d in
      option_ind (OutcomeFollows h) (lookup env.route_id h.routes) (λ e. same)
        (λ r e.
          if_ind (OutcomeFollows h)
            (on_stream env r && (machine == r.source_machine_id || machine == r.target_machine_id))
            (λ x. go (client_of (other_end machine r) h.clients)) (λ x. same))
    where
      after : Hub
      after = record h { routes = delete env.route_id h.routes }

      follows : Follows h.routes after.routes
      follows = (delete-Distinct env.route_id h.routes d, delete-Keeps env.route_id h.routes)

      go : (o : Option ℕ) → OutcomeFollows h (close_to max client o frame after)
      go none = follows
      go (some t) = deliver-Follows t after follows

leave-Follows :
    (client : ℕ) (o : Option Client) (h : Hub)
    → Distinct h.routes
    → Follows h.routes (leave client o h).routes
leave-Follows client none h d = same-Follows h.routes d
leave-Follows client (some c) h d =
    option_ind (Follows h.routes) c.machine_id (λ e. same-Follows h.routes d)
      (λ machine e. (forget-Distinct machine h.routes d, forget-Keeps machine h.routes d))

step-Follows :
    (max : ℕ) (e : Event) (h : Hub) → Distinct h.routes → Follows h.routes (step max e h).routes
unfolding step route_opaque_frame client_closes forget_machine
step-Follows max (accepts client machine) h d = same-Follows h.routes d
step-Follows max (pairs client machine) h d =
    option_ind (HubFollows h) (lookup client h.clients) (λ e. same-Follows h.routes d)
      (λ c e. same-Follows h.routes d)
step-Follows max (routes client frame env endpoints) h d =
    option_ind (OutcomeFollows h) (machine_of client h) (λ e. same-Follows h.routes d)
      (λ machine e. in_direction-Follows max client frame env h d env.direction machine endpoints)
step-Follows max (closes client) h d = leave-Follows client (lookup client h.clients) h d
step-Follows max (forgets machine) h d =
    (forget-Distinct machine h.routes d, forget-Keeps machine h.routes d)

run-Distinct :
    (max : ℕ) (es : List Event) (h : Hub) → Distinct h.routes → Distinct (run max es h).routes
unfolding run
run-Distinct max [] h d = d
run-Distinct max (e ∷ es) h d = run-Distinct max es (step max e h) (step-Follows max e h d).0

-- After any events, another one leaves each route of the hub as it is or removes it: its
-- identifier is never bound to other machines, to another stream or to another address.
pub step-Keeps :
    (max : ℕ) (es : List Event) (e : Event)
    → Keeps (run max es empty_hub).routes (step max e (run max es empty_hub)).routes
step-Keeps max es e =
    (step-Follows max e (run max es empty_hub) (run-Distinct max es empty_hub tt)).1
