-- ===== src/Endpoint/Tests.antt =====
-- Routes of src/companion/endpoint-contracts.ts as JSON values.
use agent_tab_bridge.Base.{
  ℕ, ◌≤◌, ◌≡◌, refl, inl, true, none, some, List, [], ◌∷◌, ◌++◌, contains, arith, list_eq, nat_eq,
  Bool, ◌==◌, ◌&&◌, &&-true, Bool-cases, inr, eq_iff, subst,
}
use agent_tab_bridge.Base.Results.{ok}
use agent_tab_bridge.Base.Text.{codes, is_alphanumeric, is_lower, is_upper, is_digit}
use agent_tab_bridge.Json.{
  Fields, end, field, null, str, obj, from_list, to_list, get, key_count, has_own, json_beq,
}
use agent_tab_bridge.Base.Text.{Str}
use agent_tab_bridge.Access.Normal.{IsNormal, normalize_session_access-IsNormal}
use agent_tab_bridge.Endpoint.Provenance.{route_keys}
use agent_tab_bridge.Endpoint.Keys.{Unique}
use agent_tab_bridge.Endpoint.Reading.{IsFingerprint, lower}
use agent_tab_bridge.Endpoint.Accepted.{IsRouteOf-is_route_provenance}
use agent_tab_bridge.Endpoint.Guard.{IsRouteOf, is_route_provenance-IsRouteOf}
use agent_tab_bridge.Access.Order.{distinct_from, sort_distinct, sort}
use agent_tab_bridge.Access.Defs.{
  Platform, normalize_session_access, normalized_tab_ids, normalized_domains, check_level,
  full_access, raw_access, to_json, is_session_access,
}
use agent_tab_bridge.Access.Domains.{PlatformLaws}
use agent_tab_bridge.Sessions.Types.{Route, RouteKind, RoutePolicy, local_route_provenance}
use agent_tab_bridge.Endpoint.Provenance.{
  is_route_provenance, route_json, is_fingerprint, is_identifier,
  local_route_provenance-is_route_provenance,
}

abbrev as_is : Platform
as_is = record { to_lower_case = λ s. s; host_name = λ s. some s }

as_is-laws : PlatformLaws as_is
as_is-laws = record { lower_host = λ s h. refl }

full_access-normalized : normalize_session_access as_is (raw_access full_access) ≡ ok full_access
unfolding normalize_session_access normalized_tab_ids normalized_domains check_level sort_distinct
    sort distinct_from to_list from_list
full_access-normalized = refl

local_route_provenance-is_route_provenance_example :
    is_route_provenance as_is
      (route_json (local_route_provenance (codes "sha256/a") (codes "sha256/b") full_access))
    ≡ true
unfolding is_fingerprint is_alphanumeric is_lower is_upper is_digit
local_route_provenance-is_route_provenance_example =
    local_route_provenance-is_route_provenance as_is (codes "sha256/a") (codes "sha256/b")
      (raw_access full_access) full_access as_is-laws refl refl full_access-normalized

-- A routed one, with a hub.
abbrev routed : Fields
routed = field (codes "kind") (str (codes "routed")) (
    field (codes "endpointId") (str (codes "sha256/a")) (
      field (codes "controllerPrincipalId") (str (codes "sha256/b")) (
        field (codes "routePolicy") (str (codes "routed")) (
          field (codes "accessCeiling") (to_json full_access) (
            field (codes "hubId") (str (codes "h"))
              (field (codes "routeId") null (field (codes "streamId") null end)))))))

routed-accepted : is_route_provenance as_is (obj routed) ≡ true
unfolding is_route_provenance is_fingerprint is_identifier is_alphanumeric is_lower is_upper
    is_digit is_session_access to_json normalize_session_access normalized_tab_ids
    normalized_domains check_level sort_distinct sort distinct_from to_list from_list get key_count
    has_own json_beq
routed-accepted = refl

is_route_provenance-IsRouteOf_example :
    (fs : Fields) × (r : Route) × (obj routed ≡ obj fs) × IsRouteOf as_is fs r
is_route_provenance-IsRouteOf_example =
    is_route_provenance-IsRouteOf as_is (obj routed) routed-accepted

-- A local one, as an object and as a route.
abbrev here : Route
here = record {
  kind = RouteKind.local;
  endpoint_id = codes "sha256/a";
  controller_principal_id = codes "sha256/b";
  route_policy = RoutePolicy.local_only;
  access_ceiling = full_access;
  hub_id = none;
  route_id = none;
  stream_id = none;
}

abbrev here_fields : Fields
here_fields = field (codes "routePolicy") (str (codes "localOnly")) (
    field (codes "kind") (str (codes "local")) (
      field (codes "endpointId") (str (codes "sha256/a")) (
        field (codes "controllerPrincipalId") (str (codes "sha256/b")) (
          field (codes "accessCeiling") (to_json full_access) (
            field (codes "hubId") null
              (field (codes "routeId") null (field (codes "streamId") null end)))))))

letter-IsFingerprint : (c : ℕ) → b'a' ≤ c → c ≤ b'z' → IsFingerprint (codes "sha256/" ++ c ∷ [])
letter-IsFingerprint c p q = record {
  rest = c ∷ [];
  prefixed = refl;
  nonempty = λ e. cc;
  allowed = (lower p q, tt);
  within = omega arith;
}

full_access-IsNormal : IsNormal as_is full_access
full_access-IsNormal =
    normalize_session_access-IsNormal as_is (raw_access full_access) full_access
      full_access-normalized

abbrev all_in : List Str → Fields → Bool
all_in ks end = true
all_in ks (field j v fs) = contains ks j && all_in ks fs

has_own-contains :
    (ks : List Str) (fs : Fields) (k : Str)
    → all_in ks fs ≡ true
    → has_own k fs ≡ true
    → contains ks k ≡ true
unfolding has_own
has_own-contains ks end k a h = cc
has_own-contains ks (field j v fs) k a h = elim (Bool-cases (j == k)) [
  | inl e ↦
      subst (λ x. contains ks x ≡ true) ((eq_iff j k).0 e)
        (&&-true (contains ks j) (all_in ks fs) a).0
  | inr e ↦ has_own-contains ks fs k (&&-true (contains ks j) (all_in ks fs) a).1 (rw e at h)
]

here_fields-Unique : Unique here_fields
unfolding has_own
here_fields-Unique = (refl, (refl, (refl, (refl, (refl, (refl, (refl, (refl, tt))))))))

here_fields-IsRouteOf : IsRouteOf as_is here_fields here
unfolding get
here_fields-IsRouteOf = record {
  kind = refl;
  endpoint_id = refl;
  controller = refl;
  policy = refl;
  ceiling = refl;
  hub_id = refl;
  route_id = refl;
  stream_id = refl;
  no_others = λ k h. has_own-contains route_keys here_fields k refl h;
  fingerprints = (
    letter-IsFingerprint b'a' (omega arith) (omega arith),
    letter-IsFingerprint b'b' (omega arith) (omega arith),
  );
  normal_ceiling = full_access-IsNormal;
  identifiers = (tt, tt, tt);
  agree = inl (refl, refl, refl, refl, refl);
}

IsRouteOf-is_route_provenance_example : is_route_provenance as_is (obj here_fields) ≡ true
IsRouteOf-is_route_provenance_example =
    IsRouteOf-is_route_provenance as_is here_fields here as_is-laws here_fields-Unique
      here_fields-IsRouteOf
