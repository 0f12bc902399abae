-- ===== src/Browser/Authority.antt =====
-- When two session records carry the same authority: `sameSessionAuthority` and
-- `matchesSessionAuthority` of extensions/browser/chrome-extension/modules/session-core.js, on records
-- whose fields have their types. A field that may be null or absent is an option.
use agent_tab_bridge.Base.{
  ℕ, Bool, false, ◌&&◌, Option, none, some, List, [], ◌∷◌, ◌==◌, if◌then◌else◌, nat_eq, list_eq,
  option_eq,
}
use agent_tab_bridge.Base.Text.{Str, codes}

pub record Access : Type 0 where
  pub level : Str
  pub tab_ids : List ℕ
  pub domains : List Str

pub record Route : Type 0 where
  pub kind : Str
  pub endpoint_id : Str
  pub controller_principal_id : Str
  pub route_policy : Str
  pub access_ceiling : Option Access
  pub hub_id : Option Str
  pub route_id : Option Str
  pub stream_id : Option Str

-- A session as the extension stores it. The authority does not include its state, nor whether it came
-- from a remembered grant.
pub record Session : Type 0 where
  pub id : Str
  pub controller_id : Str
  pub controller_name : Str
  pub task_label : Str
  pub created_at : ℕ
  pub expires_at : Option ℕ
  pub capabilities : List Str
  pub access : Option Access
  pub route : Option Route
  pub state : Str
  pub remembered_grant : Option Bool

-- `sameAccess`, which no absent access passes.
abbrev pub same_access : Option Access → Option Access → Bool
same_access (some a) (some b) =
    a.level == b.level && (a.tab_ids == b.tab_ids && a.domains == b.domains)
same_access _ _ = false

-- `sameRoute`.
abbrev pub same_route : Option Route → Option Route → Bool
same_route (some a) (some b) =
    a.kind == b.kind
    && (a.endpoint_id == b.endpoint_id
        && (a.controller_principal_id == b.controller_principal_id
            && (a.route_policy == b.route_policy
                && (same_access a.access_ceiling b.access_ceiling
                    && (a.hub_id == b.hub_id
                        && (a.route_id == b.route_id && a.stream_id == b.stream_id))))))
same_route _ _ = false

abbrev pub first_mismatch : List (Bool × Str) → Option Str
first_mismatch [] = none
first_mismatch ((same, name) ∷ rest) = if same then first_mismatch rest else some name

abbrev pub tests_of : Session → Session → List (Bool × Str)
tests_of a b =
    (a.id == b.id, codes "id")
    ∷ (a.controller_id == b.controller_id, codes "controllerId")
    ∷ (a.controller_name == b.controller_name, codes "controllerName")
    ∷ (a.task_label == b.task_label, codes "taskLabel")
    ∷ (a.created_at == b.created_at, codes "createdAt")
    ∷ (a.expires_at == b.expires_at, codes "expiresAt")
    ∷ (a.capabilities == b.capabilities, codes "capabilities")
    ∷ (same_access a.access b.access, codes "access")
    ∷ (same_route a.route b.route, codes "route")
    ∷ []

-- `sessionAuthorityMismatchField`.
unfoldable pub session_authority_mismatch_field : Option Session → Option Session → Option Str
session_authority_mismatch_field (some a) (some b) = first_mismatch (tests_of a b)
session_authority_mismatch_field _ _ = some (codes "record")

-- `sameSessionAuthority`.
unfoldable pub same_session_authority : Option Session → Option Session → Bool
unfolding session_authority_mismatch_field
same_session_authority a b = session_authority_mismatch_field a b == none

abbrev pub has_state : Str → Option Session → Bool
has_state state none = false
has_state state (some s) = s.state == state

-- `matchesSessionAuthority`.
unfoldable pub matches_session_authority : Option Session → Option Session → Bool
unfolding same_session_authority
matches_session_authority pending active =
    has_state (codes "pending") pending
    && (has_state (codes "active") active && same_session_authority pending active)

-- The records that can carry an authority at all: they have an access, and a route with a ceiling.
abbrev pub HasAccess : Option Access → Type 0
HasAccess none = ⊥
HasAccess (some a) = Unit

abbrev pub HasCeiling : Option Route → Type 0
HasCeiling none = ⊥
HasCeiling (some r) = HasAccess r.access_ceiling

abbrev pub Complete : Session → Type 0
Complete s = HasAccess s.access × HasCeiling s.route
