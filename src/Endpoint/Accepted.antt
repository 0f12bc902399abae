-- ===== src/Endpoint/Accepted.antt =====
-- Which objects isRouteProvenance of src/companion/endpoint-contracts.ts accepts.
use agent_tab_bridge.Base.{
  ℕ, ◌≤◌, ◌≡◌, ◌≢◌, refl, sym, ap, ◌∙◌, Bool, true, not, ◌&&◌, ◌||◌, inl, inr, Option, none, some,
  [], ◌∷◌, ◌++◌, ◌==◌, eq_iff, contains, length, nat_eq, list_eq, arith, subst, leb, All,
}
use agent_tab_bridge.Base.Text.{Str, codes, all_of, is_alphanumeric, is_upper, is_lower, is_digit}
use agent_tab_bridge.Json.{Json, undefined, str, obj, Fields, get, key_count, has_own}
use agent_tab_bridge.Access.Defs.{Platform, Access, is_session_access, to_json, raw_access}
use agent_tab_bridge.Access.Domains.{PlatformLaws}
use agent_tab_bridge.Access.Normal.{
  IsNormal, is_session_access-normalize, normalize_session_access_of_IsNormal,
}
use agent_tab_bridge.Sessions.Types.{Route}
use agent_tab_bridge.Endpoint.Provenance.{
  is_print_char, is_empty, is_fingerprint, is_identifier, is_text, is_null, is_nullable_identifier,
  is_named, route_keys, has_all, is_route_provenance, kind_text, policy_text, or_null,
}
use agent_tab_bridge.Endpoint.Keys.{Unique, length-key_count, key_count-length, has_own-get}
use agent_tab_bridge.Endpoint.Reading.{
  IsFingerprintChar, upper, lower, digit, sign, IsFingerprint, IsIdentifier,
}
use agent_tab_bridge.Endpoint.Guard.{IsRouteOf}

IsFingerprintChar-is_print_char : (c : ℕ) → IsFingerprintChar c → is_print_char c ≡ true
unfolding is_alphanumeric is_upper is_lower is_digit
IsFingerprintChar-is_print_char c (upper p q) = ground arith
IsFingerprintChar-is_print_char c (lower p q) = ground arith
IsFingerprintChar-is_print_char c (digit p q) = ground arith
IsFingerprintChar-is_print_char c (sign h) = ground arith

All-all_of : (s : Str) → All IsFingerprintChar s → all_of is_print_char s ≡ true
All-all_of [] a = refl
All-all_of (c ∷ s) a = rw (IsFingerprintChar-is_print_char c a.0, All-all_of s a.1) refl

not_empty : (t : Str) → t ≢ [] → not (is_empty t) ≡ true
not_empty [] n = elim (n refl) [ ]
not_empty (c ∷ t) n = refl

le→leb : (a b : ℕ) → a ≤ b → leb a b ≡ true
le→leb a b h = ground arith

IsFingerprint-is_fingerprint : (s : Str) → IsFingerprint s → is_fingerprint s ≡ true
unfolding is_fingerprint
IsFingerprint-is_fingerprint s f =
    subst (λ t. is_fingerprint t ≡ true) (sym f.prefixed)
      (rw
        (
          not_empty f.rest f.nonempty,
          All-all_of f.rest f.allowed,
          le→leb (length (codes "sha256/" ++ f.rest)) 256
              (subst (λ t. length t ≤ 256) f.prefixed f.within),
        )
        refl)

IsIdentifier-is_nullable_identifier :
    (o : Option Str) → IsIdentifier o → is_nullable_identifier (or_null o) ≡ true
unfolding is_identifier
IsIdentifier-is_nullable_identifier none i = refl
IsIdentifier-is_nullable_identifier (some s) i =
    rw (not_empty s i.0, le→leb (length s) 256 i.1) refl

IsNormal-is_session_access :
    (pf : Platform) (a : Access)
    → PlatformLaws pf
    → IsNormal pf a
    → is_session_access pf (to_json a) ≡ true
IsNormal-is_session_access pf a laws n =
    is_session_access-normalize pf (raw_access a) a laws
      (normalize_session_access_of_IsNormal pf a laws n)

has_own_of_eq :
    (k : Str) (fs : Fields) (v : Json) → v ≢ undefined → get k fs ≡ v → has_own k fs ≡ true
has_own_of_eq k fs v n e = has_own-get k fs (λ u. n (sym e ∙ u))

or_null-defined : (o : Option Str) → or_null o ≢ undefined
or_null-defined none e = cc
or_null-defined (some s) e = cc

to_json-defined : (a : Access) → to_json a ≢ undefined
unfolding to_json
to_json-defined a e = cc

IsRouteOf-has_all :
    (pf : Platform) (fs : Fields) (r : Route) → IsRouteOf pf fs r → has_all route_keys fs ≡ true
IsRouteOf-has_all pf fs r h =
    rw
      (
        has_own_of_eq (codes "kind") fs (str (kind_text r.kind)) (λ e. cc) h.kind,
        has_own_of_eq (codes "endpointId") fs (str r.endpoint_id) (λ e. cc) h.endpoint_id,
        has_own_of_eq (codes "controllerPrincipalId") fs (str r.controller_principal_id) (λ e. cc)
            h.controller,
        has_own_of_eq (codes "routePolicy") fs (str (policy_text r.route_policy)) (λ e. cc)
            h.policy,
        has_own_of_eq (codes "accessCeiling") fs (to_json r.access_ceiling)
            (to_json-defined r.access_ceiling) h.ceiling,
        has_own_of_eq (codes "hubId") fs (or_null r.hub_id) (or_null-defined r.hub_id) h.hub_id,
        has_own_of_eq (codes "routeId") fs (or_null r.route_id) (or_null-defined r.route_id)
            h.route_id,
        has_own_of_eq (codes "streamId") fs (or_null r.stream_id) (or_null-defined r.stream_id)
            h.stream_id,
      )
      refl

eight_keys :
    (fs : Fields)
    → Unique fs
    → has_all route_keys fs ≡ true
    → ((k : Str) → has_own k fs ≡ true → contains route_keys k ≡ true)
    → key_count fs ≡ 8
eight_keys fs u all no_others =
    omega
      (arith, length-key_count route_keys fs refl all, key_count-length fs route_keys u no_others)

-- The last test, as the code writes it.
abbrev fits : Fields → Bool
fits fs =
    (is_named (codes "local") (get (codes "kind") fs)
      && (is_named (codes "localOnly") (get (codes "routePolicy") fs)
          && (is_null (get (codes "hubId") fs)
              && (is_null (get (codes "routeId") fs) && is_null (get (codes "streamId") fs)))))
    || (is_named (codes "routed") (get (codes "kind") fs)
        && is_named (codes "routed") (get (codes "routePolicy") fs))

Agree-fits : (pf : Platform) (fs : Fields) (r : Route) → IsRouteOf pf fs r → fits fs ≡ true
Agree-fits pf fs r h = elim h.agree [
  | inl (k, o, u, v, w) ↦
      rw
        (
          h.kind ∙ ap (λ x. str (kind_text x)) k,
          h.policy ∙ ap (λ x. str (policy_text x)) o,
          h.hub_id ∙ ap or_null u,
          h.route_id ∙ ap or_null v,
          h.stream_id ∙ ap or_null w,
        )
        refl
  | inr (k, o) ↦
      rw (h.kind ∙ ap (λ x. str (kind_text x)) k, h.policy ∙ ap (λ x. str (policy_text x)) o) refl
]

-- An object in which no key stands twice, and which has the fields of a route that the contract
-- allows and no others, is accepted by isRouteProvenance, if toLowerCase leaves lower-case
-- letters, digits, dots and dashes as they are.
pub IsRouteOf-is_route_provenance :
    (pf : Platform) (fs : Fields) (r : Route)
    → PlatformLaws pf
    → Unique fs
    → IsRouteOf pf fs r
    → is_route_provenance pf (obj fs) ≡ true
unfolding is_route_provenance
IsRouteOf-is_route_provenance pf fs r laws u h =
    let all = IsRouteOf-has_all pf fs r h in
    let n : (key_count fs == 8) ≡ true =
      (eq_iff (key_count fs) 8).1 (eight_keys fs u all h.no_others) in
    let e =
      ap (is_text is_fingerprint) h.endpoint_id
      ∙ IsFingerprint-is_fingerprint r.endpoint_id h.fingerprints.0 in
    let c =
      ap (is_text is_fingerprint) h.controller
      ∙ IsFingerprint-is_fingerprint r.controller_principal_id h.fingerprints.1 in
    let a =
      ap (is_session_access pf) h.ceiling
      ∙ IsNormal-is_session_access pf r.access_ceiling laws h.normal_ceiling in
    let i =
      ap is_nullable_identifier h.hub_id
      ∙ IsIdentifier-is_nullable_identifier r.hub_id h.identifiers.0 in
    let j =
      ap is_nullable_identifier h.route_id
      ∙ IsIdentifier-is_nullable_identifier r.route_id h.identifiers.1 in
    let k =
      ap is_nullable_identifier h.stream_id
      ∙ IsIdentifier-is_nullable_identifier r.stream_id h.identifiers.2 in
    rw (n, all, e, c, a, i, j, k, Agree-fits pf fs r h) refl
