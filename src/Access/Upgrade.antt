-- ===== src/Access/Upgrade.antt =====
-- The access that `upgradeSessionAccess` of src/companion/session-access.ts gives.
use agent_tab_bridge.Base.{
  ℕ, ◌≡◌, ◌≢◌, ◌⊎◌, refl, sym, ap, ◌∙◌, true, ◌&&◌, ◌||◌, List, [], ◌∷◌, ◌==◌, map, nat_eq, list_eq,
  arith, inl, inr, All, All-append, eq_refl, eq_iff, &&-true, subst,
}
use agent_tab_bridge.Base.Text.{Str}
use agent_tab_bridge.Base.Results.{ok, map_result, >>=-eq-ok, throw_if-eq-ok}
use agent_tab_bridge.Json.{num, str, to_list, from_list, to_list-from_list}
use agent_tab_bridge.Access.Order.{
  nat_order, str_order, sort_distinct, includes, sort_distinct-includes, includes-append,
}
use agent_tab_bridge.Access.Domains.{PlatformLaws, IsDomain}
use agent_tab_bridge.Access.Normal.{
  IsNormal, ok_inj, normalized_tab_ids-inv, normalized_domains-inv, check_level-inv,
  map_result-nums, map_result-names, level_of-level_name, normalize_session_access-IsNormal,
}
use agent_tab_bridge.Access.Defs.{
  Platform, Level, selected_tabs, Access, UpgradeKind, tabs, Delta, RawDelta,
  normalize_domain_value, tab_id_value, normalized_tab_ids, normalized_domains, required_list,
  kind_of, check_kind, level_of, level_name, normalize_session_access, raw_access, raw_delta,
  normalize_session_access_delta, same_session_access, full_access, joined_tab_ids, joined_domains,
  level_of_domains, widen, is_full, level_beq, already_full, no_added_authority,
  upgrade_session_access,
}

level_beq-eq : (l m : Level) → level_beq l m ≡ true → l ≡ m
level_beq-eq l m h = ground arith

-- `sameSessionAccess` compares everything that an access has.
pub same_session_access-eq : (a b : Access) → same_session_access a b ≡ true → a ≡ b
unfolding same_session_access
same_session_access-eq a b h =
    let d =
      &&-true (level_beq a.level b.level && a.tab_ids == b.tab_ids) (a.domains == b.domains) h in
    let t = &&-true (level_beq a.level b.level) (a.tab_ids == b.tab_ids) d.0 in
    let e1 = level_beq-eq a.level b.level t.0 in
    let e2 = (eq_iff a.tab_ids b.tab_ids).0 t.1 in
    let e3 = (eq_iff a.domains b.domains).0 d.1 in
    λ i. record { level = e1 i; tab_ids = e2 i; domains = e3 i }

module _ (pf : Platform) (laws : PlatformLaws pf) where
  normalize-raw_access-inv :
      (a b : Access)
      → All (IsDomain pf) a.domains
      → normalize_session_access pf (raw_access a) ≡ ok b
      → (b.level ≡ a.level)
        × (b.tab_ids ≡ sort_distinct a.tab_ids)
        × (b.domains ≡ sort_distinct a.domains)
  unfolding normalize_session_access
  normalize-raw_access-inv a b valid h =
      let ivs = to_list (from_list (map num a.tab_ids)) in
      let nvs = to_list (from_list (map str a.domains)) in
      let (level, hl, h3) = >>=-eq-ok (level_of (str (level_name a.level))) _ h in
      let (ids, hi, h4) = >>=-eq-ok (normalized_tab_ids ivs) _ h3 in
      let (names, hn, h5) = >>=-eq-ok (normalized_domains pf nvs) _ h4 in
      let (numbers, ri, ei, _) = normalized_tab_ids-inv ivs ids hi in
      let (found, rn, en, _, _) = normalized_domains-inv pf nvs names hn in
      let (made, _) = check_level-inv level ids names b h5 in
      let numbers' : numbers ≡ a.tab_ids = ok_inj a.tab_ids numbers (
        sym (map_result-nums a.tab_ids)
        ∙ ap (map_result tab_id_value) (sym (to_list-from_list (map num a.tab_ids)))
        ∙ ri) in
      let found' : found ≡ a.domains = ok_inj a.domains found (
        sym (map_result-names pf a.domains laws valid)
        ∙ ap (map_result (normalize_domain_value pf)) (sym (to_list-from_list (map str a.domains)))
        ∙ rn) in
      rw made (
        ok_inj a.level level (sym (level_of-level_name a.level) ∙ hl),
        ei ∙ ap sort_distinct numbers',
        en ∙ ap sort_distinct found',
      )

  -- What an upgrade to lists gives: the tabs and the domains of both, and nothing else.
  pub record Joins (current : Access) (delta : Delta) (upgraded : Access) : Type 0 where
    pub not_full : upgraded.level ≢ Level.full
    pub same_tabs :
        (i : ℕ)
        → includes upgraded.tab_ids i ≡ (includes current.tab_ids i || includes delta.tab_ids i)
    pub same_names :
        (s : Str)
        → includes upgraded.domains s ≡ (includes current.domains s || includes delta.domains s)

  -- What the kind of an upgrade says of its lists.
  abbrev KindLists : UpgradeKind → List ℕ → List Str → Type 0
  KindLists tabs ids names = names ≡ []
  KindLists UpgradeKind.domains ids names = ids ≡ []
  KindLists UpgradeKind.full ids names = (ids ≡ []) × (names ≡ [])

  check_kind-inv :
      (kind : UpgradeKind) (ids : List ℕ) (names : List Str) (d : Delta)
      → check_kind kind ids names ≡ ok d
      → (d ≡ record { kind = kind; tab_ids = ids; domains = names }) × KindLists kind ids names
  unfolding check_kind
  check_kind-inv tabs ids [] d h = ground arith
  check_kind-inv tabs ids (n ∷ ns) d h = ground arith
  check_kind-inv UpgradeKind.domains [] names d h = ground arith
  check_kind-inv UpgradeKind.domains (i ∷ is) names d h = ground arith
  check_kind-inv UpgradeKind.full [] [] d h = ground arith
  check_kind-inv UpgradeKind.full [] (n ∷ ns) d h = ground arith
  check_kind-inv UpgradeKind.full (i ∷ is) names d h = ground arith

  normalize_delta-inv :
      (value : RawDelta) (d : Delta)
      → normalize_session_access_delta pf value ≡ ok d
      → KindLists d.kind d.tab_ids d.domains × All (IsDomain pf) d.domains
  unfolding normalize_session_access_delta
  normalize_delta-inv value d h =
      let (kind, _, h1) = >>=-eq-ok (kind_of value.kind) _ h in
      let (ivs, _, h2) = >>=-eq-ok (required_list value.tab_ids) _ h1 in
      let (nvs, _, h3) = >>=-eq-ok (required_list value.domains) _ h2 in
      let (ids, hi, h4) = >>=-eq-ok (normalized_tab_ids ivs) _ h3 in
      let (names, hn, h5) = >>=-eq-ok (normalized_domains pf nvs) _ h4 in
      let (made, k) = check_kind-inv kind ids names d h5 in
      let (_, _, _, _, valid) = normalized_domains-inv pf nvs names hn in rw made (k, valid)

  joined_tab_ids-includes :
      (current : Access) (d : Delta) (i : ℕ)
      → KindLists d.kind d.tab_ids d.domains
      → includes (joined_tab_ids current d) i ≡ (includes current.tab_ids i || includes d.tab_ids i)
  joined_tab_ids-includes current d i k = go d.kind k
    where
      go :
          (kind : UpgradeKind)
          → KindLists kind d.tab_ids d.domains
          → includes (joined_tab_ids current (record d { kind = kind })) i
            ≡ (includes current.tab_ids i || includes d.tab_ids i)
      go tabs k = includes-append current.tab_ids d.tab_ids i
      go UpgradeKind.domains k = rw k (ground arith)
      go UpgradeKind.full k = rw k.0 (ground arith)

  joined_domains-includes :
      (current : Access) (d : Delta) (s : Str)
      → KindLists d.kind d.tab_ids d.domains
      → includes (joined_domains current d) s ≡ (includes current.domains s || includes d.domains s)
  joined_domains-includes current d s k = go d.kind k
    where
      go :
          (kind : UpgradeKind)
          → KindLists kind d.tab_ids d.domains
          → includes (joined_domains current (record d { kind = kind })) s
            ≡ (includes current.domains s || includes d.domains s)
      go tabs k = rw k (ground arith)
      go UpgradeKind.domains k = includes-append current.domains d.domains s
      go UpgradeKind.full k = rw k.1 (ground arith)

  joined_domains-valid :
      (current : Access) (d : Delta)
      → All (IsDomain pf) current.domains
      → All (IsDomain pf) d.domains
      → All (IsDomain pf) (joined_domains current d)
  joined_domains-valid current d v w = go d.kind
    where
      go :
          (kind : UpgradeKind)
          → All (IsDomain pf) (joined_domains current (record d { kind = kind }))
      go tabs = v
      go UpgradeKind.domains = All-append (IsDomain pf) current.domains d.domains v w
      go UpgradeKind.full = v

  level_of_domains-not_full : (names : List Str) → level_of_domains names ≢ Level.full
  level_of_domains-not_full [] e = cc
  level_of_domains-not_full (n ∷ ns) e = cc

  same_session_access_self : (a : Access) → same_session_access a a ≡ true
  unfolding same_session_access
  same_session_access_self a = rw (eq_refl a.tab_ids, eq_refl a.domains) (go a.level)
    where
      go : (l : Level) → (level_beq l l && true && true) ≡ true
      go selected_tabs = refl
      go Level.domains = refl
      go Level.full = refl

  widen-Joins :
      (current upgraded : Access) (d : Delta)
      → IsNormal pf current
      → KindLists d.kind d.tab_ids d.domains
      → All (IsDomain pf) d.domains
      → widen pf current d ≡ ok upgraded
      → Joins current d upgraded × (upgraded ≢ current) × IsNormal pf upgraded
  unfolding widen
  widen-Joins current upgraded d v k w h =
      let names = joined_domains current d in
      let ids = joined_tab_ids current d in
      let joined : Access = record {
        level = level_of_domains names;
        tab_ids = ids;
        domains = names;
      } in
      let (u, hu, h1) = >>=-eq-ok (normalize_session_access pf (raw_access joined)) _ h in
      let (differs, h2) =
        throw_if-eq-ok (same_session_access current u) no_added_authority (ok u) h1 in
      let e : upgraded ≡ u = ok_inj u upgraded h2 in
      let (el, ei, en) =
        normalize-raw_access-inv joined u (joined_domains-valid current d v.names_valid w) hu in
      rw e (
        record {
          not_full = λ f. level_of_domains-not_full names (sym el ∙ f);
          same_tabs =
              λ i. rw ei (sort_distinct-includes ids i ∙ joined_tab_ids-includes current d i k);
          same_names =
              λ s. rw en (sort_distinct-includes names s ∙ joined_domains-includes current d s k);
        },
        λ same. cc (
          differs,
          subst (λ t. same_session_access current t ≡ true) (sym same)
              (same_session_access_self current),
        ),
        normalize_session_access-IsNormal pf (raw_access joined) u hu,
      )

  full_access-IsNormal : IsNormal pf full_access
  full_access-IsNormal = record {
    ids_ascending = tt;
    ids_few = omega arith;
    names_ascending = tt;
    names_few = omega arith;
    names_valid = tt;
    coherent = (refl, refl);
  }

  dispatch-inv :
      (current upgraded : Access) (d : Delta)
      → IsNormal pf current
      → KindLists d.kind d.tab_ids d.domains
      → All (IsDomain pf) d.domains
      → (elim d.kind [ UpgradeKind.full ↦ ok full_access | _ ↦ widen pf current d ]) ≡ ok upgraded
      → IsNormal pf upgraded
        × (((d.kind ≡ UpgradeKind.full) × (upgraded ≡ full_access))
            ⊎ (Joins current d upgraded × (upgraded ≢ current)))
  dispatch-inv current upgraded d v k w h = go d.kind refl h
    where
      go :
          (kind : UpgradeKind)
          → d.kind ≡ kind
          → (elim kind [ UpgradeKind.full ↦ ok full_access | _ ↦ widen pf current d ]) ≡ ok upgraded
          → IsNormal pf upgraded
            × (((d.kind ≡ UpgradeKind.full) × (upgraded ≡ full_access))
                ⊎ (Joins current d upgraded × (upgraded ≢ current)))
      go tabs e h = let (j, ne, n) = widen-Joins current upgraded d v k w h in (n, inr (j, ne))
      go UpgradeKind.domains e h =
          let (j, ne, n) = widen-Joins current upgraded d v k w h in (n, inr (j, ne))
      go UpgradeKind.full e h =
          let same : upgraded ≡ full_access = ok_inj full_access upgraded h in
          (rw same full_access-IsNormal, inl (e, same))

  -- An upgrade of a normal access that succeeds starts below full access and gives a normal access
  -- that differs from it: full access, if that was asked for, and otherwise exactly the tabs and the
  -- domains of the old access and of the normalised upgrade, below full access.
  pub upgrade_session_access-grows :
      (current : Access) (value : Delta) (upgraded : Access)
      → IsNormal pf current
      → upgrade_session_access pf current value ≡ ok upgraded
      → (delta : Delta) × (normalize_session_access_delta pf (raw_delta value) ≡ ok delta)
        × (current.level ≢ Level.full)
        × IsNormal pf upgraded
        × (((delta.kind ≡ UpgradeKind.full) × (upgraded ≡ full_access))
            ⊎ (Joins current delta upgraded × (upgraded ≢ current)))
  unfolding upgrade_session_access
  upgrade_session_access-grows current value upgraded v h =
      let (d, hd, h1) = >>=-eq-ok (normalize_session_access_delta pf (raw_delta value)) _ h in
      let (below, h2) = throw_if-eq-ok (is_full current.level) already_full _ h1 in
      let (k, w) = normalize_delta-inv (raw_delta value) d hd in
      let (n, r) = dispatch-inv current upgraded d v k w h2 in (d, hd, λ f. ground arith, n, r)
