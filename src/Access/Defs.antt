-- ===== src/Access/Defs.antt =====
-- The functions of src/companion/session-access.ts.
use mathlib.Core.List.{reverse}
use agent_tab_bridge.Base.{
  ℕ, Bool, true, false, not, ◌&&◌, ◌||◌, Option, none, some, List, [], ◌∷◌, ◌++◌, map, ltb, ◌==◌,
  if◌then◌else◌, length, nat_eq, list_eq, nat_beq,
}
use agent_tab_bridge.Base.Text.{Str, codes, all_of, is_lower, is_digit, trim}
use agent_tab_bridge.Base.Results.{Result, ok, err, ◌>>=◌, ◌>>◌, throw_if, map_result}
use agent_tab_bridge.Json.{
  Json, undefined, null, num, str, arr, obj, Fields, end, field, to_list, from_list, get, key_count,
  has_own, json_beq,
}
use agent_tab_bridge.Access.Order.{nat_order, str_order, sort_distinct}

pub data Level : Type 0 where
  selected_tabs domains full : Level

pub record Access : Type 0 where
  pub level : Level
  pub tab_ids : List ℕ
  pub domains : List Str

pub data UpgradeKind : Type 0 where
  tabs domains full : UpgradeKind

pub record Delta : Type 0 where
  pub kind : UpgradeKind
  pub tab_ids : List ℕ
  pub domains : List Str

abbrev pub max_access_tab_ids : ℕ
max_access_tab_ids = 64

abbrev pub max_access_domains : ℕ
max_access_domains = 64

-- The exceptions, one for each message.
pub data AccessError : Type 0 where
  invalid_tab_ids invalid_domain too_many_domains : AccessError
  tab_ids_not_array domains_not_array invalid_level : AccessError
  tabs_with_domains no_domains full_with_restrictions : AccessError
  invalid_upgrade_kind lists_required : AccessError
  tabs_upgrade_lists domains_upgrade_lists full_upgrade_lists : AccessError
  already_full no_added_authority : AccessError

abbrev AccessResult : Type 0 → Type 0
AccessResult A = Result {0, 0} AccessError A

-- An access or an upgrade as it comes in, with no field checked.
pub record RawAccess : Type 0 where
  pub level : Json
  pub tab_ids : Json
  pub domains : Json

pub record RawDelta : Type 0 where
  pub kind : Json
  pub tab_ids : Json
  pub domains : Json

-- The platform's functions that the domain test calls: `toLowerCase`, and the host name of
-- `new URL("https://" + text)`, which is `none` where the constructor throws.
pub record Platform : Type 0 where
  pub to_lower_case : Str → Str
  pub host_name : Str → Option Str

-- `/^[a-z0-9.-]$/`.
unfoldable pub is_host_char : ℕ → Bool
unfolding is_lower is_digit
is_host_char c = is_lower c || is_digit c || nat_beq c b'.' || nat_beq c b'-'

-- `replace(/^\*\./, "")`.
unfoldable pub strip_wildcard : Str → Str
strip_wildcard [] = []
strip_wildcard (c ∷ []) = c ∷ []
strip_wildcard (c ∷ d ∷ s) = if nat_beq c b'*' && nat_beq d b'.' then s else c ∷ d ∷ s

abbrev pub ends_with : ℕ → Str → Bool
ends_with d [] = false
ends_with d (c ∷ []) = nat_beq c d
ends_with d (c ∷ e ∷ s) = ends_with d (e ∷ s)

abbrev pub starts_with : ℕ → Str → Bool
starts_with d [] = false
starts_with d (c ∷ s) = nat_beq c d

-- `replace(/\.$/, "")`.
unfoldable pub strip_dot : Str → Str
strip_dot [] = []
strip_dot (c ∷ []) = if nat_beq c b'.' then [] else c ∷ []
strip_dot (c ∷ d ∷ s) = c ∷ strip_dot (d ∷ s)

abbrev pub has_char : ℕ → Str → Bool
has_char d [] = false
has_char d (c ∷ s) = nat_beq c d || has_char d s

-- `split(".")`, with the part that is being read.
unfoldable pub split_from : Str → Str → List Str
split_from part [] = reverse part ∷ []
split_from part (c ∷ s) = elim (nat_beq c b'.') [
  | true ↦ reverse part ∷ split_from [] s
  | false ↦ split_from (c ∷ part) s
]

unfoldable pub is_bad_label : Str → Bool
is_bad_label part =
    length part == 0 || ltb 63 (length part) || starts_with b'-' part || ends_with b'-' part

abbrev pub any_of : (Str → Bool) → List Str → Bool
any_of p [] = false
any_of p (x ∷ xs) = p x || any_of p xs

abbrev pub or_throw {ℓ} : {A : Type ℓ} → Option A → AccessError → Result AccessError A
or_throw none e = err e
or_throw (some a) e = ok a

-- The test of a host name against the text that it was read from.
unfoldable pub check_host : Str → Str → AccessResult Str
check_host raw host = do
  throw_if
      (not (host == raw)
        || not (all_of is_host_char host)
        || any_of is_bad_label (split_from [] host))
      invalid_domain
  ok host

unfoldable pub normalize_domain : Platform → Str → AccessResult Str
normalize_domain pf value = do
  let raw = strip_dot (strip_wildcard (pf.to_lower_case (trim value)))
  throw_if (length raw == 0 || ltb 253 (length raw) || has_char b'/' raw || has_char b':' raw)
      invalid_domain
  host ← or_throw (pf.host_name raw) invalid_domain
  check_host raw (strip_dot (pf.to_lower_case host))

-- A value that is no string has no `trim`.
abbrev pub normalize_domain_value : Platform → Json → AccessResult Str
normalize_domain_value pf (str s) = normalize_domain pf s
normalize_domain_value pf _ = err invalid_domain

-- The test of `normalizedTabIds` on one value, with the number that it lets through.
abbrev pub tab_id_value : Json → AccessResult ℕ
tab_id_value (num n) = ok n
tab_id_value _ = err invalid_tab_ids

unfoldable pub normalized_tab_ids : List Json → AccessResult (List ℕ)
normalized_tab_ids values = do
  throw_if (ltb max_access_tab_ids (length values)) invalid_tab_ids
  ids ← map_result tab_id_value values
  ok (sort_distinct ids)

unfoldable pub normalized_domains : Platform → List Json → AccessResult (List Str)
normalized_domains pf values = do
  throw_if (ltb max_access_domains (length values)) too_many_domains
  names ← map_result (normalize_domain_value pf) values
  ok (sort_distinct names)

-- A list that may be missing, but not be another value.
abbrev pub optional_list : Json → AccessError → AccessResult (List Json)
optional_list undefined e = ok []
optional_list (arr xs) e = ok (to_list xs)
optional_list _ e = err e

abbrev pub level_of_text : Str → AccessResult Level
level_of_text s =
    if s == codes "selectedTabs"
    then ok selected_tabs
    else if s == codes "domains"
    then ok Level.domains
    else if s == codes "full"
    then ok Level.full
    else err invalid_level

-- `value?.level ?? "selectedTabs"`, and whether it is a level.
abbrev pub level_of : Json → AccessResult Level
level_of undefined = ok selected_tabs
level_of null = ok selected_tabs
level_of (str s) = level_of_text s
level_of _ = err invalid_level

-- The three tests of the lists against the level.
unfoldable pub check_level : Level → List ℕ → List Str → AccessResult Access
check_level selected_tabs ids names = do
  throw_if (not (length names == 0)) tabs_with_domains
  ok (record { level = selected_tabs; tab_ids = ids; domains = names })
check_level Level.domains ids names = do
  throw_if (length names == 0) no_domains
  ok (record { level = Level.domains; tab_ids = ids; domains = names })
check_level Level.full ids names = do
  throw_if (not (length ids == 0) || not (length names == 0)) full_with_restrictions
  ok (record { level = Level.full; tab_ids = ids; domains = names })

unfoldable pub normalize_session_access : Platform → RawAccess → AccessResult Access
normalize_session_access pf value = do
  id_values ← optional_list value.tab_ids tab_ids_not_array
  name_values ← optional_list value.domains domains_not_array
  level ← level_of value.level
  ids ← normalized_tab_ids id_values
  names ← normalized_domains pf name_values
  check_level level ids names

-- The fields as `JSON.stringify` writes them, in the order in which the source builds them.
abbrev pub level_name : Level → Str
level_name selected_tabs = codes "selectedTabs"
level_name Level.domains = codes "domains"
level_name Level.full = codes "full"

abbrev pub kind_name : UpgradeKind → Str
kind_name tabs = codes "tabs"
kind_name UpgradeKind.domains = codes "domains"
kind_name UpgradeKind.full = codes "full"

abbrev pub raw_access : Access → RawAccess
raw_access a = record {
  level = str (level_name a.level);
  tab_ids = arr (from_list (map num a.tab_ids));
  domains = arr (from_list (map str a.domains));
}

abbrev pub raw_delta : Delta → RawDelta
raw_delta d = record {
  kind = str (kind_name d.kind);
  tab_ids = arr (from_list (map num d.tab_ids));
  domains = arr (from_list (map str d.domains));
}

unfoldable pub to_json : Access → Json
to_json a = obj (
    field (codes "level") (raw_access a).level (
      field (codes "tabIds") (raw_access a).tab_ids
        (field (codes "domains") (raw_access a).domains end)))

-- The fields that `record.level`, `record.tabIds` and `record.domains` read.
unfoldable pub read_access : Fields → RawAccess
read_access fs = record {
  level = get (codes "level") fs;
  tab_ids = get (codes "tabIds") fs;
  domains = get (codes "domains") fs;
}

abbrev pub has_access_keys : Fields → Bool
has_access_keys fs =
    key_count fs == 3
    && has_own (codes "level") fs
    && has_own (codes "tabIds") fs
    && has_own (codes "domains") fs

abbrev pub is_ok_with {ℓ} : {A : Type ℓ} → (A → Bool) → Result {0, ℓ} AccessError A → Bool
is_ok_with p (ok a) = p a
is_ok_with p (err e) = false

unfoldable pub is_session_access : Platform → Json → Bool
unfolding read_access
is_session_access pf (obj fs) =
    has_access_keys fs
    && is_ok_with (λ a. json_beq (to_json a) (obj fs))
        (normalize_session_access pf (read_access fs))
is_session_access pf _ = false

abbrev pub level_beq : Level → Level → Bool
level_beq selected_tabs selected_tabs = true
level_beq Level.domains Level.domains = true
level_beq Level.full Level.full = true
level_beq _ _ = false

-- The lists are compared entry by entry, after their lengths.
unfoldable pub same_session_access : Access → Access → Bool
same_session_access left right =
    level_beq left.level right.level
    && left.tab_ids == right.tab_ids
    && left.domains == right.domains

abbrev pub kind_of_text : Str → AccessResult UpgradeKind
kind_of_text s =
    if s == codes "tabs"
    then ok tabs
    else if s == codes "domains"
    then ok UpgradeKind.domains
    else if s == codes "full"
    then ok UpgradeKind.full
    else err invalid_upgrade_kind

abbrev pub kind_of : Json → AccessResult UpgradeKind
kind_of (str s) = kind_of_text s
kind_of _ = err invalid_upgrade_kind

abbrev pub required_list : Json → AccessResult (List Json)
required_list (arr xs) = ok (to_list xs)
required_list _ = err lists_required

-- The three tests of the lists against the kind.
unfoldable pub check_kind : UpgradeKind → List ℕ → List Str → AccessResult Delta
check_kind tabs ids names = do
  throw_if (length ids == 0 || not (length names == 0)) tabs_upgrade_lists
  ok (record { kind = tabs; tab_ids = ids; domains = names })
check_kind UpgradeKind.domains ids names = do
  throw_if (length names == 0 || not (length ids == 0)) domains_upgrade_lists
  ok (record { kind = UpgradeKind.domains; tab_ids = ids; domains = names })
check_kind UpgradeKind.full ids names = do
  throw_if (not (length ids == 0) || not (length names == 0)) full_upgrade_lists
  ok (record { kind = UpgradeKind.full; tab_ids = ids; domains = names })

unfoldable pub normalize_session_access_delta : Platform → RawDelta → AccessResult Delta
normalize_session_access_delta pf value = do
  kind ← kind_of value.kind
  id_values ← required_list value.tab_ids
  name_values ← required_list value.domains
  ids ← normalized_tab_ids id_values
  names ← normalized_domains pf name_values
  check_kind kind ids names

abbrev pub full_access : Access
full_access = record { level = Level.full; tab_ids = []; domains = [] }

-- The lists of the upgraded access, before they are normalised again.
abbrev pub joined_tab_ids : Access → Delta → List ℕ
joined_tab_ids current delta = elim delta.kind [
  | tabs ↦ current.tab_ids ++ delta.tab_ids
  | _ ↦ current.tab_ids
]

abbrev pub joined_domains : Access → Delta → List Str
joined_domains current delta = elim delta.kind [
  | UpgradeKind.domains ↦ current.domains ++ delta.domains
  | _ ↦ current.domains
]

abbrev pub level_of_domains : List Str → Level
level_of_domains [] = selected_tabs
level_of_domains (d ∷ ds) = Level.domains

-- An upgrade to lists, which must add something.
unfoldable pub widen : Platform → Access → Delta → AccessResult Access
widen pf current delta = do
  upgraded ← normalize_session_access pf (
      raw_access (record {
        level = level_of_domains (joined_domains current delta);
        tab_ids = joined_tab_ids current delta;
        domains = joined_domains current delta;
      }))
  throw_if (same_session_access current upgraded) no_added_authority
  ok upgraded

abbrev pub is_full : Level → Bool
is_full Level.full = true
is_full _ = false

unfoldable pub upgrade_session_access : Platform → Access → Delta → AccessResult Access
unfolding widen
upgrade_session_access pf current value = do
  delta ← normalize_session_access_delta pf (raw_delta value)
  throw_if (is_full current.level) already_full
  elim delta.kind [ UpgradeKind.full ↦ ok full_access | _ ↦ widen pf current delta ]
