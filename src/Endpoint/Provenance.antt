-- ===== src/Endpoint/Provenance.antt =====
-- Which JSON values are the provenance of a route: `isRouteProvenance` of
-- src/companion/endpoint-contracts.ts.
use agent_tab_bridge.Base.{
  ℕ, ◌≡◌, Bool, true, false, not, ◌&&◌, ◌||◌, Option, none, some, List, [], ◌∷◌, ◌==◌, leb, length,
  take, drop, nat_beq, nat_eq, list_eq,
}
use agent_tab_bridge.Base.Results.{ok}
use agent_tab_bridge.Base.Text.{Str, codes, all_of, is_alphanumeric}
use agent_tab_bridge.Json.{Json, null, str, obj, Fields, end, field, get, key_count, has_own}
use agent_tab_bridge.Access.Defs.{
  Platform, RawAccess, Access, is_session_access, to_json, normalize_session_access,
}
use agent_tab_bridge.Access.Domains.{PlatformLaws}
use agent_tab_bridge.Access.Normal.{is_session_access-normalize}
use agent_tab_bridge.Sessions.Types.{RouteKind, RoutePolicy, Route, local_route_provenance}

abbrev pub is_print_char : ℕ → Bool
is_print_char c =
    is_alphanumeric c
    || nat_beq c b'+'
    || nat_beq c b'/'
    || nat_beq c b'='
    || nat_beq c b'_'
    || nat_beq c b'-'

abbrev pub is_empty : Str → Bool
is_empty [] = true
is_empty (c ∷ s) = false

-- `fingerprint` of a text.
unfoldable pub is_fingerprint : Str → Bool
is_fingerprint s =
    take 7 s == codes "sha256/"
    && (not (is_empty (drop 7 s)) && (all_of is_print_char (drop 7 s) && leb (length s) 256))

-- `identifier` of a text.
unfoldable pub is_identifier : Str → Bool
is_identifier s = not (is_empty s) && leb (length s) 256

abbrev pub is_text : (Str → Bool) → Json → Bool
is_text p (str s) = p s
is_text p _ = false

abbrev pub is_null : Json → Bool
is_null null = true
is_null _ = false

-- `nullableIdentifier`.
abbrev pub is_nullable_identifier : Json → Bool
is_nullable_identifier value = is_null value || is_text is_identifier value

abbrev pub route_keys : List Str
route_keys =
    codes "kind"
    ∷ codes "endpointId"
    ∷ codes "controllerPrincipalId"
    ∷ codes "routePolicy"
    ∷ codes "accessCeiling"
    ∷ codes "hubId"
    ∷ codes "routeId"
    ∷ codes "streamId"
    ∷ []

abbrev pub has_all : List Str → Fields → Bool
has_all [] fs = true
has_all (k ∷ ks) fs = has_own k fs && has_all ks fs

abbrev pub is_named : Str → Json → Bool
is_named name value = is_text (λ s. s == name) value

-- `isRouteProvenance`.
unfoldable pub is_route_provenance : Platform → Json → Bool
unfolding is_fingerprint
is_route_provenance pf (obj fs) =
    (key_count fs == 8 && has_all route_keys fs)
    && ((is_text is_fingerprint (get (codes "endpointId") fs)
          && (is_text is_fingerprint (get (codes "controllerPrincipalId") fs)
              && (is_session_access pf (get (codes "accessCeiling") fs)
                  && (is_nullable_identifier (get (codes "hubId") fs)
                      && (is_nullable_identifier (get (codes "routeId") fs)
                          && is_nullable_identifier (get (codes "streamId") fs))))))
        && ((is_named (codes "local") (get (codes "kind") fs)
              && (is_named (codes "localOnly") (get (codes "routePolicy") fs)
                  && (is_null (get (codes "hubId") fs)
                      && (is_null (get (codes "routeId") fs)
                          && is_null (get (codes "streamId") fs)))))
            || (is_named (codes "routed") (get (codes "kind") fs)
                && is_named (codes "routed") (get (codes "routePolicy") fs))))
is_route_provenance pf _ = false

abbrev pub kind_text : RouteKind → Str
kind_text RouteKind.local = codes "local"
kind_text RouteKind.routed = codes "routed"

abbrev pub policy_text : RoutePolicy → Str
policy_text RoutePolicy.local_only = codes "localOnly"
policy_text RoutePolicy.routed = codes "routed"

abbrev pub or_null : Option Str → Json
or_null none = null
or_null (some s) = str s

-- A route as a JSON value.
unfoldable pub route_json : Route → Json
route_json r = obj (
    field (codes "kind") (str (kind_text r.kind)) (
      field (codes "endpointId") (str r.endpoint_id) (
        field (codes "controllerPrincipalId") (str r.controller_principal_id) (
          field (codes "routePolicy") (str (policy_text r.route_policy)) (
            field (codes "accessCeiling") (to_json r.access_ceiling) (
              field (codes "hubId") (or_null r.hub_id) (
                field (codes "routeId") (or_null r.route_id)
                  (field (codes "streamId") (or_null r.stream_id) end))))))))

-- A local route whose endpoint and controller have fingerprints, and whose ceiling came from
-- normalizeSessionAccess, passes isRouteProvenance as JSON.
pub local_route_provenance-is_route_provenance :
    (pf : Platform) (endpoint controller : Str) (value : RawAccess) (ceiling : Access)
    → PlatformLaws pf
    → is_fingerprint endpoint ≡ true
    → is_fingerprint controller ≡ true
    → normalize_session_access pf value ≡ ok ceiling
    → is_route_provenance pf (route_json (local_route_provenance endpoint controller ceiling))
      ≡ true
unfolding is_route_provenance route_json local_route_provenance get key_count has_own
local_route_provenance-is_route_provenance pf endpoint controller value ceiling laws e c h =
    rw (e, c, is_session_access-normalize pf value ceiling laws h)
