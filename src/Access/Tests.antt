-- ===== src/Access/Tests.antt =====
-- The access of src/companion/session-access.ts on small inputs, on a platform that leaves texts as
-- they are.
use agent_tab_bridge.Base.{◌≡◌, ◌≢◌, ◌⊎◌, refl, true, some, [], ◌∷◌, list_eq, nat_eq}
use agent_tab_bridge.Base.Text.{codes, trim, trim_start, is_space, is_lower, is_digit}
use agent_tab_bridge.Base.Results.{ok}
use agent_tab_bridge.Json.{num, str, arr, from_list, to_list}
use agent_tab_bridge.Access.Order.{sort_distinct, distinct_from, sort, place}
use agent_tab_bridge.Access.Domains.{PlatformLaws, normalize_domain_idem}
use agent_tab_bridge.Access.Defs.{
  Platform, Level, Access, UpgradeKind, Delta, RawAccess, normalize_domain,
  normalize_session_access, normalize_session_access_delta, upgrade_session_access,
  is_session_access, to_json, raw_access, raw_delta, full_access, strip_dot, strip_wildcard,
  check_host, split_from, is_bad_label, is_host_char, normalized_tab_ids, normalized_domains,
  check_level, check_kind, widen, same_session_access,
}
use agent_tab_bridge.Access.Normal.{
  IsNormal, normalize_session_access-IsNormal, normalize_session_access_of_IsNormal,
  is_session_access-normalize,
}
use agent_tab_bridge.Access.Upgrade.{Joins, upgrade_session_access-grows}

abbrev as_is : Platform
as_is = record { to_lower_case = λ s. s; host_name = λ s. some s }

as_is-laws : PlatformLaws as_is
as_is-laws = record { lower_host = λ s h. refl }

wildcard-normalized : normalize_domain as_is (codes " *.a.b. ") ≡ ok (codes "a.b")
unfolding normalize_domain check_host strip_dot strip_wildcard split_from is_bad_label is_host_char
    trim trim_start is_space is_lower is_digit
wildcard-normalized = refl

normalize_domain_idem_example : normalize_domain as_is (codes "a.b") ≡ ok (codes "a.b")
normalize_domain_idem_example =
    normalize_domain_idem as_is (codes " *.a.b. ") (codes "a.b") as_is-laws wildcard-normalized

abbrev some_value : RawAccess
some_value = record {
  level = str (codes "domains");
  tab_ids = arr (from_list (num 3 ∷ num 1 ∷ num 3 ∷ []));
  domains = arr (from_list (str (codes "b.c") ∷ str (codes "a.b.") ∷ []));
}

abbrev some_access : Access
some_access = record {
  level = Level.domains;
  tab_ids = 1 ∷ 3 ∷ [];
  domains = codes "a.b" ∷ codes "b.c" ∷ [];
}

some_value-normalized : normalize_session_access as_is some_value ≡ ok some_access
unfolding normalize_session_access normalized_tab_ids normalized_domains check_level sort_distinct
    sort place distinct_from normalize_domain check_host strip_dot strip_wildcard split_from
    is_bad_label is_host_char trim trim_start is_space is_lower is_digit to_list from_list
some_value-normalized = refl

normalize_session_access-IsNormal_example : IsNormal as_is some_access
normalize_session_access-IsNormal_example =
    normalize_session_access-IsNormal as_is some_value some_access some_value-normalized

some_access-IsNormal : IsNormal as_is some_access
some_access-IsNormal =
    normalize_session_access-IsNormal as_is some_value some_access some_value-normalized

normalize_session_access_of_IsNormal_example :
    normalize_session_access as_is (raw_access some_access) ≡ ok some_access
normalize_session_access_of_IsNormal_example =
    normalize_session_access_of_IsNormal as_is some_access as_is-laws some_access-IsNormal

is_session_access-normalize_example : is_session_access as_is (to_json some_access) ≡ true
is_session_access-normalize_example =
    is_session_access-normalize as_is some_value some_access as_is-laws some_value-normalized

-- One more tab, and one that is there.
abbrev more_tabs : Delta
more_tabs = record { kind = UpgradeKind.tabs; tab_ids = 2 ∷ 1 ∷ []; domains = [] }

abbrev more_access : Access
more_access = record some_access { tab_ids = 1 ∷ 2 ∷ 3 ∷ [] }

more_tabs-granted : upgrade_session_access as_is some_access more_tabs ≡ ok more_access
unfolding upgrade_session_access normalize_session_access_delta check_kind widen same_session_access
    normalize_session_access normalized_tab_ids normalized_domains check_level sort_distinct sort
    place distinct_from normalize_domain check_host strip_dot strip_wildcard split_from is_bad_label
    is_host_char trim trim_start is_space is_lower is_digit to_list from_list
more_tabs-granted = refl

upgrade_session_access-grows_example :
    (delta : Delta) × (normalize_session_access_delta as_is (raw_delta more_tabs) ≡ ok delta)
    × (some_access.level ≢ Level.full)
    × IsNormal as_is more_access
    × (((delta.kind ≡ UpgradeKind.full) × (more_access ≡ full_access))
        ⊎ (Joins as_is as_is-laws some_access delta more_access × (more_access ≢ some_access)))
upgrade_session_access-grows_example =
    upgrade_session_access-grows as_is as_is-laws some_access more_tabs more_access
      some_access-IsNormal more_tabs-granted
