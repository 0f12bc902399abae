-- ===== src/Browser/Matching.antt =====
-- What the comparison of authorities in extensions/browser/chrome-extension/modules/session-core.js
-- tells of two records.
use agent_tab_bridge.Base.{
  ◌≡◌, refl, ap, ◌∙◌, subst, ◌↔◌, Bool, true, false, &&-true, Option, none, some, List, [], ◌∷◌,
  ◌==◌, All, eq_iff, eq_refl, if◌then◌else◌, nat_eq, list_eq, option_eq,
}
use agent_tab_bridge.Base.Text.{Str}
use agent_tab_bridge.Browser.Authority.{
  Access, Route, Session, same_access, same_route, first_mismatch, tests_of,
  session_authority_mismatch_field, same_session_authority, HasAccess, HasCeiling, Complete,
}

same_access-eq : (x y : Option Access) → same_access x y ≡ true → (x ≡ y) × HasAccess x
same_access-eq (some a) (some b) h =
    let l = &&-true (a.level == b.level) _ h in
    let t = &&-true (a.tab_ids == b.tab_ids) _ l.1 in
    let e1 = (eq_iff a.level b.level).0 l.0 in
    let e2 = (eq_iff a.tab_ids b.tab_ids).0 t.0 in
    let e3 = (eq_iff a.domains b.domains).0 t.1 in
    (λ i. some (record { level = e1 i; tab_ids = e2 i; domains = e3 i }), tt)
same_access-eq none y h = cc
same_access-eq (some a) none h = cc

same_access_refl : (x : Option Access) → HasAccess x → same_access x x ≡ true
same_access_refl none h = elim h [ ]
same_access_refl (some a) h = rw (eq_refl a.level, eq_refl a.tab_ids, eq_refl a.domains)

same_route-eq : (x y : Option Route) → same_route x y ≡ true → (x ≡ y) × HasCeiling x
same_route-eq (some a) (some b) h =
    let k = &&-true (a.kind == b.kind) _ h in
    let e = &&-true (a.endpoint_id == b.endpoint_id) _ k.1 in
    let c = &&-true (a.controller_principal_id == b.controller_principal_id) _ e.1 in
    let p = &&-true (a.route_policy == b.route_policy) _ c.1 in
    let l = &&-true (same_access a.access_ceiling b.access_ceiling) _ p.1 in
    let u = &&-true (a.hub_id == b.hub_id) _ l.1 in
    let r = &&-true (a.route_id == b.route_id) _ u.1 in
    let ceiling = same_access-eq a.access_ceiling b.access_ceiling l.0 in
    let e1 = (eq_iff a.kind b.kind).0 k.0 in
    let e2 = (eq_iff a.endpoint_id b.endpoint_id).0 e.0 in
    let e3 = (eq_iff a.controller_principal_id b.controller_principal_id).0 c.0 in
    let e4 = (eq_iff a.route_policy b.route_policy).0 p.0 in
    let e5 = ceiling.0 in
    let e6 = (eq_iff a.hub_id b.hub_id).0 u.0 in
    let e7 = (eq_iff a.route_id b.route_id).0 r.0 in
    let e8 = (eq_iff a.stream_id b.stream_id).0 r.1 in
    (
      λ i. some (record {
        kind = e1 i;
        endpoint_id = e2 i;
        controller_principal_id = e3 i;
        route_policy = e4 i;
        access_ceiling = e5 i;
        hub_id = e6 i;
        route_id = e7 i;
        stream_id = e8 i;
      }),
      ceiling.1,
    )
same_route-eq none y h = cc
same_route-eq (some a) none h = cc

same_route_refl : (x : Option Route) → HasCeiling x → same_route x x ≡ true
same_route_refl none h = elim h [ ]
same_route_refl (some r) h = rw (
  eq_refl r.kind,
  eq_refl r.endpoint_id,
  eq_refl r.controller_principal_id,
  eq_refl r.route_policy,
  same_access_refl r.access_ceiling h,
  eq_refl r.hub_id,
  eq_refl r.route_id,
  eq_refl r.stream_id,
)

abbrev Passes : Bool × Str → Type 0
Passes p = p.0 ≡ true

first_mismatch-Passes : (ts : List (Bool × Str)) → first_mismatch ts ≡ none → All Passes ts
first_mismatch-Passes [] h = tt
first_mismatch-Passes ((true, name) ∷ ts) h = (refl, first_mismatch-Passes ts h)
first_mismatch-Passes ((false, name) ∷ ts) h = cc

Passes-first_mismatch : (ts : List (Bool × Str)) → All Passes ts → first_mismatch ts ≡ none
Passes-first_mismatch [] h = refl
Passes-first_mismatch ((b, name) ∷ ts) h =
    ap (λ c. if c then first_mismatch ts else some name) h.0 ∙ Passes-first_mismatch ts h.1

-- The second record with the state of the first, and its mark of a remembered grant.
abbrev pub in_state_of : Session → Session → Session
in_state_of a b = record b { state = a.state; remembered_grant = a.remembered_grant }

tests-eq : (a b : Session) → All Passes (tests_of a b) → Complete a × (a ≡ in_state_of a b)
tests-eq a b t =
    let access = same_access-eq a.access b.access t.1.1.1.1.1.1.1.0 in
    let route = same_route-eq a.route b.route t.1.1.1.1.1.1.1.1.0 in
    let e1 = (eq_iff a.id b.id).0 t.0 in
    let e2 = (eq_iff a.controller_id b.controller_id).0 t.1.0 in
    let e3 = (eq_iff a.controller_name b.controller_name).0 t.1.1.0 in
    let e4 = (eq_iff a.task_label b.task_label).0 t.1.1.1.0 in
    let e5 = (eq_iff a.created_at b.created_at).0 t.1.1.1.1.0 in
    let e6 = (eq_iff a.expires_at b.expires_at).0 t.1.1.1.1.1.0 in
    let e7 = (eq_iff a.capabilities b.capabilities).0 t.1.1.1.1.1.1.0 in
    let e8 = access.0 in
    let e9 = route.0 in
    (
      (access.1, route.1),
      λ i. record {
        id = e1 i;
        controller_id = e2 i;
        controller_name = e3 i;
        task_label = e4 i;
        created_at = e5 i;
        expires_at = e6 i;
        capabilities = e7 i;
        access = e8 i;
        route = e9 i;
        state = a.state;
        remembered_grant = a.remembered_grant;
      },
    )

tests_refl : (a : Session) → Complete a → All Passes (tests_of a a)
tests_refl a c = (
  eq_refl a.id,
  (
    eq_refl a.controller_id,
    (
      eq_refl a.controller_name,
      (
        eq_refl a.task_label,
        (
          eq_refl a.created_at,
          (
            eq_refl a.expires_at,
            (
              eq_refl a.capabilities,
              (same_access_refl a.access c.0, (same_route_refl a.route c.1, tt)),
            ),
          ),
        ),
      ),
    ),
  ),
)

-- Two records carry the same authority just if they have an access and a route with a ceiling, and
-- differ at most in their state and in whether they came from a remembered grant.
pub same_session_authority_iff :
    (a b : Session)
    → (same_session_authority (some a) (some b) ≡ true) ↔ (Complete a × (a ≡ in_state_of a b))
unfolding same_session_authority session_authority_mismatch_field
same_session_authority_iff a b = (
  λ h.
      tests-eq a b
        (first_mismatch-Passes (tests_of a b) ((eq_iff (first_mismatch (tests_of a b)) none).0 h)),
  λ h. (eq_iff (first_mismatch (tests_of a b)) none).1 (
      Passes-first_mismatch (tests_of a b)
        (subst (λ s. All Passes (tests_of a s)) h.1 (tests_refl a h.0))),
)
