-- ===== src/Endpoint/Guard.antt =====
-- What a JSON value that isRouteProvenance of src/companion/endpoint-contracts.ts accepts holds.
use agent_tab_bridge.Base.{
  ◌≤◌, ◌≡◌, ◌⊎◌, refl, ap, Bool, true, false, ◌||◌, &&-true, inl, inr, Bool-cases, Option, none,
  some, ◌∷◌, eq_iff, contains, length, nat_eq, list_eq, arith, true_false,
}
use agent_tab_bridge.Base.Text.{Str, codes}
use agent_tab_bridge.Json.{
  Json, undefined, null, bool, num, other_num, str, arr, obj, Fields, get, key_count, has_own,
}
use agent_tab_bridge.Access.Defs.{Platform, Access, is_session_access, to_json}
use agent_tab_bridge.Access.Normal.{IsNormal}
use agent_tab_bridge.Sessions.Types.{RouteKind, RoutePolicy, Route}
use agent_tab_bridge.Endpoint.Provenance.{
  is_fingerprint, is_text, is_null, is_nullable_identifier, route_keys, has_all,
  is_route_provenance, kind_text, policy_text, or_null,
}
use agent_tab_bridge.Endpoint.Keys.{distinct, length-key_count}
use agent_tab_bridge.Endpoint.Reading.{
  IsFingerprint, IsIdentifier, is_text-inv, is_named-inv, is_nullable_identifier-inv,
  is_fingerprint-inv, is_session_access-inv,
}

-- A local route has no hub, no route identifier and no stream, under the policy of its kind.
abbrev pub Agree : Route → Type 0
Agree r =
    ((r.kind ≡ RouteKind.local)
      × (r.route_policy ≡ RoutePolicy.local_only)
      × (r.hub_id ≡ none)
      × (r.route_id ≡ none)
      × (r.stream_id ≡ none))
    ⊎ ((r.kind ≡ RouteKind.routed) × (r.route_policy ≡ RoutePolicy.routed))

-- The fields are those of the route and no others, and the route is one that the contract allows.
pub record IsRouteOf (pf : Platform) (fs : Fields) (r : Route) : Type 0 where
  pub kind : get (codes "kind") fs ≡ str (kind_text r.kind)
  pub endpoint_id : get (codes "endpointId") fs ≡ str r.endpoint_id
  pub controller : get (codes "controllerPrincipalId") fs ≡ str r.controller_principal_id
  pub policy : get (codes "routePolicy") fs ≡ str (policy_text r.route_policy)
  pub ceiling : get (codes "accessCeiling") fs ≡ to_json r.access_ceiling
  pub hub_id : get (codes "hubId") fs ≡ or_null r.hub_id
  pub route_id : get (codes "routeId") fs ≡ or_null r.route_id
  pub stream_id : get (codes "streamId") fs ≡ or_null r.stream_id
  pub no_others : (k : Str) → has_own k fs ≡ true → contains route_keys k ≡ true
  pub fingerprints : IsFingerprint r.endpoint_id × IsFingerprint r.controller_principal_id
  pub normal_ceiling : IsNormal pf r.access_ceiling
  pub identifiers : IsIdentifier r.hub_id × IsIdentifier r.route_id × IsIdentifier r.stream_id
  pub agree : Agree r

no_other_key :
    (fs : Fields) (k : Str)
    → key_count fs ≡ 8
    → has_all route_keys fs ≡ true
    → has_own k fs ≡ true
    → contains route_keys k ≡ true
no_other_key fs k n a h = elim (Bool-cases (contains route_keys k)) [
  | inl e ↦ e
  | inr e ↦
      let d : distinct (k ∷ route_keys) ≡ true = rw e refl in
      let more = length-key_count (k ∷ route_keys) fs d (rw (h, a) refl) in elim (nine more) [ ]
]
  where
    nine : length (k ∷ route_keys) ≤ key_count fs → ⊥
    nine more = omega (arith, n, more)

or_true : (a b : Bool) → (a || b) ≡ true → (a ≡ true) ⊎ (b ≡ true)
or_true true b h = inl refl
or_true false b h = inr h

null_or_null : (j : Json) (o : Option Str) → j ≡ or_null o → is_null j ≡ true → o ≡ none
null_or_null j none e h = refl
null_or_null j (some s) e h = true_false h (ap is_null e)

-- What the tests of the single fields find.
record Parts (pf : Platform) (fs : Fields) : Type 0 where
  endpoint : Str
  controller : Str
  ceiling : Access
  hub : Option Str
  route : Option Str
  stream : Option Str
  endpoint_read : (get (codes "endpointId") fs ≡ str endpoint) × IsFingerprint endpoint
  controller_read :
      (get (codes "controllerPrincipalId") fs ≡ str controller) × IsFingerprint controller
  ceiling_read : (get (codes "accessCeiling") fs ≡ to_json ceiling) × IsNormal pf ceiling
  hub_read : (get (codes "hubId") fs ≡ or_null hub) × IsIdentifier hub
  route_read : (get (codes "routeId") fs ≡ or_null route) × IsIdentifier route
  stream_read : (get (codes "streamId") fs ≡ or_null stream) × IsIdentifier stream

tests-Parts :
    (pf : Platform) (fs : Fields)
    → is_text is_fingerprint (get (codes "endpointId") fs) ≡ true
    → is_text is_fingerprint (get (codes "controllerPrincipalId") fs) ≡ true
    → is_session_access pf (get (codes "accessCeiling") fs) ≡ true
    → is_nullable_identifier (get (codes "hubId") fs) ≡ true
    → is_nullable_identifier (get (codes "routeId") fs) ≡ true
    → is_nullable_identifier (get (codes "streamId") fs) ≡ true
    → Parts pf fs
tests-Parts pf fs e c a h r s =
    let (endpoint, e1, f1) = is_text-inv is_fingerprint (get (codes "endpointId") fs) e in
    let (controller, e2, f2) =
      is_text-inv is_fingerprint (get (codes "controllerPrincipalId") fs) c in
    let (ceiling, ceiling_is, ceiling') =
      is_session_access-inv pf (get (codes "accessCeiling") fs) a in
    let (hub, hub_is, hub') = is_nullable_identifier-inv (get (codes "hubId") fs) h in
    let (route, route_is, route') = is_nullable_identifier-inv (get (codes "routeId") fs) r in
    let (stream, stream_is, stream') = is_nullable_identifier-inv (get (codes "streamId") fs) s in
    record {
      endpoint = endpoint;
      controller = controller;
      ceiling = ceiling;
      hub = hub;
      route = route;
      stream = stream;
      endpoint_read = (e1, is_fingerprint-inv endpoint f1);
      controller_read = (e2, is_fingerprint-inv controller f2);
      ceiling_read = (ceiling_is, ceiling');
      hub_read = (hub_is, hub');
      route_read = (route_is, route');
      stream_read = (stream_is, stream');
    }

abbrev route_of : {pf : Platform} {fs : Fields} → Parts pf fs → RouteKind → RoutePolicy → Route
route_of p k o = record {
  kind = k;
  endpoint_id = p.endpoint;
  controller_principal_id = p.controller;
  route_policy = o;
  access_ceiling = p.ceiling;
  hub_id = p.hub;
  route_id = p.route;
  stream_id = p.stream;
}

Parts-IsRouteOf :
    (pf : Platform) (fs : Fields) (p : Parts pf fs) (k : RouteKind) (o : RoutePolicy)
    → key_count fs ≡ 8
    → has_all route_keys fs ≡ true
    → get (codes "kind") fs ≡ str (kind_text k)
    → get (codes "routePolicy") fs ≡ str (policy_text o)
    → Agree (route_of p k o)
    → IsRouteOf pf fs (route_of p k o)
Parts-IsRouteOf pf fs p k o n all ek eo agree = record {
  kind = ek;
  endpoint_id = p.endpoint_read.0;
  controller = p.controller_read.0;
  policy = eo;
  ceiling = p.ceiling_read.0;
  hub_id = p.hub_read.0;
  route_id = p.route_read.0;
  stream_id = p.stream_read.0;
  no_others = λ name own. no_other_key fs name n all own;
  fingerprints = (p.endpoint_read.1, p.controller_read.1);
  normal_ceiling = p.ceiling_read.1;
  identifiers = (p.hub_read.1, p.route_read.1, p.stream_read.1);
  agree = agree;
}

-- A value that isRouteProvenance accepts is an object with the eight fields of a route and no others.
-- The route has a fingerprint `sha256/...` for its endpoint and its controller, a normal access as
-- its ceiling, identifiers of 1 to 256 code units or none, and a policy that fits its kind; a local
-- one has no hub, no route identifier and no stream.
pub is_route_provenance-IsRouteOf :
    (pf : Platform) (j : Json)
    → is_route_provenance pf j ≡ true
    → (fs : Fields) × (r : Route) × (j ≡ obj fs) × IsRouteOf pf fs r
unfolding is_route_provenance
is_route_provenance-IsRouteOf pf (obj fs) h =
    let outer = &&-true _ _ h in
    let keys = &&-true _ _ outer.0 in
    let inner = &&-true _ _ outer.1 in
    let e = &&-true _ _ inner.0 in
    let c = &&-true _ _ e.1 in
    let a = &&-true _ _ c.1 in
    let b = &&-true _ _ a.1 in
    let t = &&-true _ _ b.1 in
    let p = tests-Parts pf fs e.0 c.0 a.0 b.0 t.0 t.1 in
    let n = (eq_iff (key_count fs) 8).0 keys.0 in
    elim (or_true _ _ inner.1) [
      | inl l ↦
          let k = &&-true _ _ l in
          let o = &&-true _ _ k.1 in
          let u = &&-true _ _ o.1 in
          let v = &&-true _ _ u.1 in
          let ek = is_named-inv (codes "local") (get (codes "kind") fs) k.0 in
          let eo = is_named-inv (codes "localOnly") (get (codes "routePolicy") fs) o.0 in
          let no_hub = null_or_null (get (codes "hubId") fs) p.hub p.hub_read.0 u.0 in
          let no_route = null_or_null (get (codes "routeId") fs) p.route p.route_read.0 v.0 in
          let no_stream = null_or_null (get (codes "streamId") fs) p.stream p.stream_read.0 v.1 in
          (
            fs,
            route_of p RouteKind.local RoutePolicy.local_only,
            refl,
            Parts-IsRouteOf pf fs p RouteKind.local RoutePolicy.local_only n keys.1 ek eo
                (inl (refl, refl, no_hub, no_route, no_stream)),
          )
      | inr l ↦
          let k = &&-true _ _ l in
          let ek = is_named-inv (codes "routed") (get (codes "kind") fs) k.0 in
          let eo = is_named-inv (codes "routed") (get (codes "routePolicy") fs) k.1 in
          (
            fs,
            route_of p RouteKind.routed RoutePolicy.routed,
            refl,
            Parts-IsRouteOf pf fs p RouteKind.routed RoutePolicy.routed n keys.1 ek eo
                (inr (refl, refl)),
          )
    ]
is_route_provenance-IsRouteOf pf undefined h = cc
is_route_provenance-IsRouteOf pf null h = cc
is_route_provenance-IsRouteOf pf (bool b) h = cc
is_route_provenance-IsRouteOf pf (num n) h = cc
is_route_provenance-IsRouteOf pf (other_num n) h = cc
is_route_provenance-IsRouteOf pf (str s) h = cc
is_route_provenance-IsRouteOf pf (arr xs) h = cc
