-- ===== src/Access/Normal.antt =====
-- Normal access: the results of `normalizeSessionAccess` of src/companion/session-access.ts.
use agent_tab_bridge.Base.{
  ℕ, ◌≤◌, ◌≡◌, ◌≢◌, refl, ap, ◌∙◌, true, List, [], ◌∷◌, map, ltb, length, nat_eq, list_eq, arith,
  All, ltb_false→le, le→ltb_false, suc,
}
use agent_tab_bridge.Base.Text.{Str}
use agent_tab_bridge.Base.Results.{Result, ok, ◌>>=◌, map_result, >>=-eq-ok, throw_if-eq-ok}
use agent_tab_bridge.Json.{
  Json, num, str, to_list-from_list, get, key_count, has_own, json_beq_self,
}
use agent_tab_bridge.Access.Order.{
  nat_order, str_order, sort_distinct, Ascending, sort_distinct-Ascending, sort_distinct-length,
  sort_distinct_of_Ascending, sort_distinct-All,
}
use agent_tab_bridge.Access.Domains.{
  PlatformLaws, IsDomain, normalize_domain-IsDomain, normalize_domain_of_IsDomain,
}
use agent_tab_bridge.Access.Defs.{
  Platform, Level, selected_tabs, Access, AccessError, RawAccess, normalize_domain_value,
  tab_id_value, normalized_tab_ids, normalized_domains, optional_list, level_of, level_name,
  check_level, normalize_session_access, raw_access, invalid_tab_ids, too_many_domains,
  tab_ids_not_array, domains_not_array, to_json, is_session_access,
}

-- What the level asks of the lists.
abbrev pub Coherent : Level → List ℕ → List Str → Type 0
Coherent selected_tabs ids names = names ≡ []
Coherent Level.domains ids names = names ≢ []
Coherent Level.full ids names = (ids ≡ []) × (names ≡ [])

-- A normal access: sorted, without repetition, within the limits, of host names only.
pub record IsNormal (pf : Platform) (a : Access) : Type 0 where
  pub ids_ascending : Ascending a.tab_ids
  pub ids_few : length a.tab_ids ≤ 64
  pub names_ascending : Ascending a.domains
  pub names_few : length a.domains ≤ 64
  pub names_valid : All (IsDomain pf) a.domains
  pub coherent : Coherent a.level a.tab_ids a.domains

pub ok_inj {ℓ} : {A : Type ℓ} (a b : A) → ◌≡◌ {A = Result AccessError A} (ok a) (ok b) → b ≡ a
ok_inj a b h = cc

map_result-length {ℓ κ μ} :
    {E : Type ℓ} {A : Type κ} {B : Type μ} (f : A → Result E B) (xs : List A) (ys : List B)
    → map_result f xs ≡ ok ys
    → length ys ≡ length xs
map_result-length f [] ys h = ground arith
map_result-length f (x ∷ xs) ys h =
    let (y, _, h1) = >>=-eq-ok (f x) _ h in
    let (zs, hz, h2) = >>=-eq-ok (map_result f xs) _ h1 in
    ground (arith, map_result-length f xs zs hz)

pub normalized_tab_ids-inv :
    (values : List Json) (ids : List ℕ)
    → normalized_tab_ids values ≡ ok ids
    → (numbers : List ℕ) × (map_result tab_id_value values ≡ ok numbers)
      × (ids ≡ sort_distinct numbers)
      × (length ids ≤ 64)
unfolding normalized_tab_ids
normalized_tab_ids-inv values ids h =
    let sorted : List ℕ → Result AccessError (List ℕ) = λ ns. ok (sort_distinct ns) in
    let (few, h1) =
      throw_if-eq-ok (ltb 64 (length values)) invalid_tab_ids
        (map_result tab_id_value values >>= sorted) h in
    let (numbers, read, h2) = >>=-eq-ok (map_result tab_id_value values) sorted h1 in
    let e : ids ≡ sort_distinct numbers = ok_inj (sort_distinct numbers) ids h2 in
    (
      numbers,
      read,
      e,
      rw e (
          omega (
            arith,
            sort_distinct-length numbers,
            map_result-length tab_id_value values numbers read,
            ltb_false→le _ _ few,
          )),
    )

normalize_domain_value-IsDomain :
    (pf : Platform) (v : Json) (d : Str) → normalize_domain_value pf v ≡ ok d → IsDomain pf d
normalize_domain_value-IsDomain pf (str s) d h = normalize_domain-IsDomain pf s d h
normalize_domain_value-IsDomain pf _ d h = cc

map_result-IsDomain :
    (pf : Platform) (values : List Json) (names : List Str)
    → map_result (normalize_domain_value pf) values ≡ ok names
    → All (IsDomain pf) names
map_result-IsDomain pf [] names h = rw (ok_inj [] names h) tt
map_result-IsDomain pf (v ∷ values) names h =
    let (d, hd, h1) = >>=-eq-ok (normalize_domain_value pf v) _ h in
    let (ds, hs, h2) = >>=-eq-ok (map_result (normalize_domain_value pf) values) _ h1 in
    rw (ok_inj (d ∷ ds) names h2)
      (normalize_domain_value-IsDomain pf v d hd, map_result-IsDomain pf values ds hs)

pub normalized_domains-inv :
    (pf : Platform) (values : List Json) (names : List Str)
    → normalized_domains pf values ≡ ok names
    → (found : List Str) × (map_result (normalize_domain_value pf) values ≡ ok found)
      × (names ≡ sort_distinct found)
      × (length names ≤ 64)
      × All (IsDomain pf) names
unfolding normalized_domains
normalized_domains-inv pf values names h =
    let sorted : List Str → Result AccessError (List Str) = λ ns. ok (sort_distinct ns) in
    let (few, h1) =
      throw_if-eq-ok (ltb 64 (length values)) too_many_domains
        (map_result (normalize_domain_value pf) values >>= sorted) h in
    let (found, read, h2) = >>=-eq-ok (map_result (normalize_domain_value pf) values) sorted h1 in
    let e : names ≡ sort_distinct found = ok_inj (sort_distinct found) names h2 in
    (
      found,
      read,
      e,
      rw e (
          omega (
            arith,
            sort_distinct-length found,
            map_result-length (normalize_domain_value pf) values found read,
            ltb_false→le _ _ few,
          )),
      rw e (sort_distinct-All (IsDomain pf) found (map_result-IsDomain pf values found read)),
    )

pub check_level-inv :
    (level : Level) (ids : List ℕ) (names : List Str) (a : Access)
    → check_level level ids names ≡ ok a
    → (a ≡ record { level = level; tab_ids = ids; domains = names }) × Coherent level ids names
unfolding check_level
check_level-inv selected_tabs ids [] a h = (ground arith, refl)
check_level-inv selected_tabs ids (n ∷ ns) a h = ground arith
check_level-inv Level.domains ids [] a h = ground arith
check_level-inv Level.domains ids (n ∷ ns) a h = (ground arith, λ e. cc)
check_level-inv Level.full [] [] a h = (ground arith, (refl, refl))
check_level-inv Level.full [] (n ∷ ns) a h = ground arith
check_level-inv Level.full (i ∷ is) names a h = ground arith

-- Whatever comes in, an access that is let through is normal: its lists are strictly ascending and
-- hold at most 64 entries each, its domains are host names, and its level fits the lists.
pub normalize_session_access-IsNormal :
    (pf : Platform) (value : RawAccess) (a : Access)
    → normalize_session_access pf value ≡ ok a
    → IsNormal pf a
unfolding normalize_session_access
normalize_session_access-IsNormal pf value a h =
    let (ivs, _, h1) = >>=-eq-ok (optional_list value.tab_ids tab_ids_not_array) _ h in
    let (nvs, _, h2) = >>=-eq-ok (optional_list value.domains domains_not_array) _ h1 in
    let (level, _, h3) = >>=-eq-ok (level_of value.level) _ h2 in
    let (ids, hi, h4) = >>=-eq-ok (normalized_tab_ids ivs) _ h3 in
    let (names, hn, h5) = >>=-eq-ok (normalized_domains pf nvs) _ h4 in
    let (numbers, _, e, few) = normalized_tab_ids-inv ivs ids hi in
    let (found, _, en, nfew, valid) = normalized_domains-inv pf nvs names hn in
    let (made, c) = check_level-inv level ids names a h5 in
    rw made (record {
      ids_ascending = rw e (sort_distinct-Ascending numbers);
      ids_few = few;
      names_ascending = rw en (sort_distinct-Ascending found);
      names_few = nfew;
      names_valid = valid;
      coherent = c;
    })

pub map_result-nums : (ids : List ℕ) → map_result tab_id_value (map num ids) ≡ ok ids
map_result-nums [] = refl
map_result-nums (i ∷ ids) = rw (map_result-nums ids)

pub map_result-names :
    (pf : Platform) (names : List Str)
    → PlatformLaws pf
    → All (IsDomain pf) names
    → map_result (normalize_domain_value pf) (map str names) ≡ ok names
map_result-names pf [] laws h = refl
map_result-names pf (n ∷ ns) laws h =
    rw (normalize_domain_of_IsDomain pf n laws h.0, map_result-names pf ns laws h.1)

length-map {ℓ κ} :
    {A : Type ℓ} {B : Type κ} (f : A → B) (xs : List A) → length (map f xs) ≡ length xs
length-map f [] = refl
length-map f (x ∷ xs) = ap suc (length-map f xs)

pub normalized_tab_ids-nums :
    (ids : List ℕ) → length ids ≤ 64 → normalized_tab_ids (map num ids) ≡ ok (sort_distinct ids)
unfolding normalized_tab_ids
normalized_tab_ids-nums ids h =
    rw (length-map num ids, le→ltb_false 64 (length ids) h, map_result-nums ids)

pub normalized_domains-names :
    (pf : Platform) (names : List Str)
    → PlatformLaws pf
    → All (IsDomain pf) names
    → length names ≤ 64
    → normalized_domains pf (map str names) ≡ ok (sort_distinct names)
unfolding normalized_domains
normalized_domains-names pf names laws v h =
    rw (length-map str names, le→ltb_false 64 (length names) h, map_result-names pf names laws v)

pub level_of-level_name : (l : Level) → level_of (str (level_name l)) ≡ ok l
level_of-level_name selected_tabs = refl
level_of-level_name Level.domains = refl
level_of-level_name Level.full = refl

pub check_level_of_Coherent :
    (level : Level) (ids : List ℕ) (names : List Str)
    → Coherent level ids names
    → check_level level ids names ≡ ok (record { level = level; tab_ids = ids; domains = names })
unfolding check_level
check_level_of_Coherent selected_tabs ids names c = rw c
check_level_of_Coherent Level.domains ids [] c = absurd (c refl)
check_level_of_Coherent Level.domains ids (n ∷ ns) c = ground arith
check_level_of_Coherent Level.full ids names c = rw (c.0, c.1)

-- Lists that are few, of host names, and that fit the level, are sorted and let through.
pub normalize-raw_access :
    (pf : Platform) (a : Access)
    → PlatformLaws pf
    → length a.tab_ids ≤ 64
    → length a.domains ≤ 64
    → All (IsDomain pf) a.domains
    → normalize_session_access pf (raw_access a)
      ≡ check_level a.level (sort_distinct a.tab_ids) (sort_distinct a.domains)
unfolding normalize_session_access
normalize-raw_access pf a laws few nfew valid = rw (
  to_list-from_list (map num a.tab_ids),
  to_list-from_list (map str a.domains),
  level_of-level_name a.level,
  normalized_tab_ids-nums a.tab_ids few,
  normalized_domains-names pf a.domains laws valid nfew,
)

-- A normal access is let through as it is.
pub normalize_session_access_of_IsNormal :
    (pf : Platform) (a : Access)
    → PlatformLaws pf
    → IsNormal pf a
    → normalize_session_access pf (raw_access a) ≡ ok a
normalize_session_access_of_IsNormal pf a laws v =
    normalize-raw_access pf a laws v.ids_few v.names_few v.names_valid
    ∙ rw
        (
          sort_distinct_of_Ascending a.tab_ids v.ids_ascending,
          sort_distinct_of_Ascending a.domains v.names_ascending,
        )
        (check_level_of_Coherent a.level a.tab_ids a.domains v.coherent)

-- What `normalizeSessionAccess` returns passes `isSessionAccess` once it is written as JSON and
-- read back.
pub is_session_access-normalize :
    (pf : Platform) (value : RawAccess) (a : Access)
    → PlatformLaws pf
    → normalize_session_access pf value ≡ ok a
    → is_session_access pf (to_json a) ≡ true
unfolding is_session_access to_json get key_count has_own
is_session_access-normalize pf value a laws h =
    rw
      (normalize_session_access_of_IsNormal pf a laws
        (normalize_session_access-IsNormal pf value a h))
      (unfold to_json in json_beq_self (to_json a))
