-- ===== src/Browser/Ownership.antt =====
-- Which session owns a tab: the functions on `tabOwners` and `sessionGroups` of
-- extensions/browser/chrome-extension/modules/session-core.js. An argument that is no integer, or no
-- string, is `none`; the browser's numbers of tabs and groups are natural.
use agent_tab_bridge.Base.{
  ℕ, Bool, true, false, Option, none, some, List, [], ◌∷◌, ◌==◌, if◌then◌else◌, nat_eq, list_eq,
  option_eq,
}
use agent_tab_bridge.Base.Maps.{lookup, insert, delete}
use agent_tab_bridge.Base.Text.{Str}

-- The map `tabOwners`.
abbrev pub TabOwners : Type 0
TabOwners = List (ℕ × Str)

-- `sessionOwnsGroup`.
unfoldable pub session_owns_group : List (Str × ℕ) → Option Str → Option ℕ → Bool
session_owns_group groups (some session) (some group) = lookup session groups == some group
session_owns_group groups _ _ = false

-- `sessionOwnsTab`.
unfoldable pub session_owns_tab : TabOwners → Option Str → Option ℕ → Bool
session_owns_tab owners (some session) (some tab) = lookup tab owners == some session
session_owns_tab owners _ _ = false

pub data Claim : Type 0 where
  claimed : Claim
  refused : Option Str → Claim

-- A tab without an owner, whose owner has an empty name, or that is the session's own.
abbrev pub may_claim : Str → Option Str → Bool
may_claim session none = true
may_claim session (some []) = true
may_claim session (some (c ∷ owner)) = (c ∷ owner) == session

abbrev pub claim_of : Str → ℕ → TabOwners → Option Str → TabOwners × Claim
claim_of session tab owners owner =
    if may_claim session owner
    then (insert tab session owners, claimed)
    else (owners, refused owner)

-- `claimTab`.
unfoldable pub claim_tab : TabOwners → Option Str → Option ℕ → TabOwners × Claim
claim_tab owners (some (c ∷ session)) (some tab) =
    claim_of (c ∷ session) tab owners (lookup tab owners)
claim_tab owners _ _ = (owners, refused none)

abbrev pub deleted : Option ℕ → TabOwners → TabOwners
deleted none owners = owners
deleted (some tab) owners = delete tab owners

-- `releaseTab`.
unfoldable pub release_tab : TabOwners → Option Str → Option ℕ → TabOwners × Bool
unfolding session_owns_tab
release_tab owners session tab =
    if session_owns_tab owners session tab then (deleted tab owners, true) else (owners, false)

-- `sessionTabIds`, which is also what `releaseSessionTabs` returns.
unfoldable pub session_tab_ids : TabOwners → Str → List ℕ
session_tab_ids [] session = []
session_tab_ids ((tab, owner) ∷ owners) session =
    let rest = session_tab_ids owners session in if owner == session then tab ∷ rest else rest

unfoldable pub without_session : TabOwners → Str → TabOwners
without_session [] session = []
without_session ((tab, owner) ∷ owners) session =
    let rest = without_session owners session in
    if owner == session then rest else (tab, owner) ∷ rest

-- `releaseSessionTabs`.
unfoldable pub release_session_tabs : TabOwners → Str → TabOwners × List ℕ
unfolding without_session session_tab_ids
release_session_tabs owners session =
    (without_session owners session, session_tab_ids owners session)

pub data TabAccess : Type 0 where
  already_shared blocked claimable approval_required : TabAccess

abbrev owned_access : Str → Option Str → TabAccess
owned_access owner none = blocked
owned_access owner (some session) = if owner == session then already_shared else blocked

-- `classifyTabAccess`, by its claimability, which goes with one ownership each, but for the last two.
unfoldable pub classify_tab_access : TabOwners → Option Str → ℕ → Bool → TabAccess
classify_tab_access owners session tab can_adopt = elim (lookup tab owners) [
  | some owner ↦ owned_access owner session
  | none ↦ if can_adopt then claimable else approval_required
]

-- What sessions do to the owners.
pub data Action : Type 0 where
  claims : Str → ℕ → Action
  releases : Str → ℕ → Action
  stops : Str → Action

unfoldable pub act : Action → TabOwners → TabOwners
unfolding claim_tab release_tab release_session_tabs
act (claims session tab) owners = (claim_tab owners (some session) (some tab)).0
act (releases session tab) owners = (release_tab owners (some session) (some tab)).0
act (stops session) owners = (release_session_tabs owners session).0

unfoldable pub act_all : List Action → TabOwners → TabOwners
unfolding act
act_all [] owners = owners
act_all (a ∷ rest) owners = act_all rest (act a owners)
