-- ===== src/Relay/Targets.antt =====
-- The targets and sessions that `ExtensionRelayBridge` of extension-relay/relay-bridge.ts presents:
-- what its clients are told of them, and to which tab a session or a target belongs.
use agent_tab_bridge.Base.{
  ℕ, Bool, true, false, not, ◌&&◌, Option, none, some, List, [], ◌∷◌, ◌++◌, ◌==◌, if◌then◌else◌,
  nat_eq, list_eq, option_eq, contains,
}
use agent_tab_bridge.Base.Maps.{lookup, insert}
use agent_tab_bridge.Base.Text.{Str, codes}
use agent_tab_bridge.Json.{Json, bool, str}
use agent_tab_bridge.Relay.Protocol.{text_of, param}
use agent_tab_bridge.Relay.State.{
  Attached, Tab, Client, Auxiliary, Effect, tell, event, Output, Bridge, target_id_for_tab, object,
}

abbrev pub say : List Effect → Bridge → Bridge
say es m = record m { log = m.log ++ es }

abbrev pub is_some {ℓ} : {A : Type ℓ} → Option A → Bool
is_some none = false
is_some (some a) = true

-- `targetInfoForTab`.
unfoldable pub target_info_for_tab : Tab → Str → Json
target_info_for_tab tab target_id = object (
    (codes "targetId", str target_id)
    ∷ (codes "type", str (codes "page"))
    ∷ (codes "title", str tab.info.title)
    ∷ (codes "url", str tab.info.url)
    ∷ (codes "browserContextId", str (codes "agent-tab-bridge-context"))
    ∷ (codes "attached", bool (is_some tab.attached))
    ∷ (codes "canAccessOpener", bool false)
    ∷ [])

abbrev attached_event : Tab → Str → Str → Output
attached_event tab target_id session_id = event none (str (codes "Target.attachedToTarget")) (
    object (
      (codes "sessionId", str session_id)
      ∷ (codes "targetInfo", target_info_for_tab tab target_id)
      ∷ (codes "waitingForDebugger", bool false)
      ∷ []))

abbrev pub detached_event : Option Str → Str → Str → Output
detached_event parent session_id target_id =
    event parent (str (codes "Target.detachedFromTarget"))
      (object ((codes "sessionId", str session_id) ∷ (codes "targetId", str target_id) ∷ []))

-- Who is told of an attached tab: one client, connected or not, or the connected ones, or those of
-- them that attach automatically.
pub data Recipients : Type 0 where
  one_client : ℕ → Recipients
  auto_attaching : Recipients

abbrev pub receives : Recipients → ℕ → Client → Bool
receives (one_client c) id client = c == id
receives auto_attaching id client = client.connected && client.auto_attach

-- The clients that are told, and how they remember it. A client is told of a session once.
unfoldable pub announce_to : Recipients → Str → List (ℕ × Client) → List (ℕ × Client)
announce_to who session_id [] = []
announce_to who session_id ((id, c) ∷ cs) =
    let rest = announce_to who session_id cs in
    if receives who id c && not (contains c.announced session_id)
    then (id, record c { announced = session_id ∷ c.announced }) ∷ rest
    else (id, c) ∷ rest

unfoldable pub announced_effects : Recipients → Str → Output → List (ℕ × Client) → List Effect
announced_effects who session_id output [] = []
announced_effects who session_id output ((id, c) ∷ cs) =
    let rest = announced_effects who session_id output cs in
    if receives who id c && not (contains c.announced session_id)
    then tell id output ∷ rest
    else rest

-- `announceAttachedTab`.
unfoldable pub announce_attached_tab : ℕ → Attached → Recipients → Bridge → Bridge
announce_attached_tab tab_id a who m = elim (lookup tab_id m.tabs) [
  | none ↦ m
  | some tab ↦ record m {
    clients = announce_to who a.session_id m.clients;
    log =
        m.log
        ++ announced_effects who a.session_id (attached_event tab a.target_id a.session_id)
            m.clients;
  }
]

unfoldable pub remove_session : Str → List Str → List Str
remove_session s [] = []
remove_session s (x ∷ xs) = let rest = remove_session s xs in if x == s then rest else x ∷ rest

-- The connected clients forget a session.
unfoldable pub forget_session : Str → List (ℕ × Client) → List (ℕ × Client)
unfolding remove_session
forget_session s [] = []
forget_session s ((id, c) ∷ cs) =
    let rest = forget_session s cs in
    if c.connected
    then (id, record c { announced = remove_session s c.announced }) ∷ rest
    else (id, c) ∷ rest

unfoldable pub detached_effects : Str → Str → List (ℕ × Client) → List Effect
detached_effects session_id target_id [] = []
detached_effects session_id target_id ((id, c) ∷ cs) =
    let rest = detached_effects session_id target_id cs in
    if c.connected && contains c.announced session_id
    then tell id (detached_event none session_id target_id) ∷ rest
    else rest

unfoldable pub auxiliary_effects : ℕ → Str → List (Str × Auxiliary) → List Effect
auxiliary_effects tab_id target_id [] = []
auxiliary_effects tab_id target_id ((s, x) ∷ xs) =
    let rest = auxiliary_effects tab_id target_id xs in
    if x.tab == tab_id
    then tell x.client (detached_event (some x.parent) s target_id) ∷ rest
    else rest

unfoldable pub auxiliary_elsewhere : ℕ → List (Str × Auxiliary) → List (Str × Auxiliary)
auxiliary_elsewhere tab_id [] = []
auxiliary_elsewhere tab_id ((s, x) ∷ xs) =
    let rest = auxiliary_elsewhere tab_id xs in if x.tab == tab_id then rest else (s, x) ∷ rest

unfoldable pub children_elsewhere : ℕ → List (Str × ℕ) → List (Str × ℕ)
children_elsewhere tab_id [] = []
children_elsewhere tab_id ((s, t) ∷ xs) =
    let rest = children_elsewhere tab_id xs in if t == tab_id then rest else (s, t) ∷ rest

unfoldable pub forget_children : ℕ → List (Str × ℕ) → List (ℕ × Client) → List (ℕ × Client)
unfolding forget_session
forget_children tab_id [] cs = cs
forget_children tab_id ((s, t) ∷ xs) cs =
    let rest = forget_children tab_id xs cs in if t == tab_id then forget_session s rest else rest

-- `emitDetachedFromTarget`.
unfoldable pub emit_detached_from_target : ℕ → Attached → Bridge → Bridge
unfolding forget_session
emit_detached_from_target tab_id a m = record m {
  clients = forget_children tab_id m.children (forget_session a.session_id m.clients);
  auxiliary = auxiliary_elsewhere tab_id m.auxiliary;
  children = children_elsewhere tab_id m.children;
  log =
      m.log
      ++ detached_effects a.session_id a.target_id m.clients
      ++ auxiliary_effects tab_id a.target_id m.auxiliary;
}

abbrev pub is_empty : Str → Bool
is_empty [] = true
is_empty (c ∷ s) = false

abbrev pub or_root : Option Str → Str → Str
or_root none root = root
or_root (some s) root = s

abbrev pub add_child : Option Str → ℕ → List (Str × ℕ) → List (Str × ℕ)
add_child none tab children = children
add_child (some s) tab children = if is_empty s then children else insert s tab children

abbrev pub announced_child : Json → Json → Option Str
announced_child (str method) params =
    if method == codes "Target.attachedToTarget"
    then text_of (param (codes "sessionId") params)
    else none
announced_child _ params = none

-- Clients that know the parent know a session that is announced by it.
unfoldable pub adopt : Str → Str → List (ℕ × Client) → List (ℕ × Client)
adopt parent s [] = []
adopt parent s ((id, c) ∷ cs) =
    let rest = adopt parent s cs in
    if c.connected && contains c.announced parent
    then (id, record c { announced = s ∷ c.announced }) ∷ rest
    else (id, c) ∷ rest

unfoldable pub frame_effects : Str → Output → List (ℕ × Client) → List Effect
frame_effects s frame [] = []
frame_effects s frame ((id, c) ∷ cs) =
    let rest = frame_effects s frame cs in
    if c.connected && contains c.announced s then tell id frame ∷ rest else rest

unfoldable pub mirror_effects : ℕ → Json → Json → List (Str × Auxiliary) → List Effect
mirror_effects tab_id method params [] = []
mirror_effects tab_id method params ((s, x) ∷ xs) =
    let rest = mirror_effects tab_id method params xs in
    if x.tab == tab_id then tell x.client (event (some s) method params) ∷ rest else rest

abbrev pub is_root : Option Str → Bool
is_root none = true
is_root (some s) = is_empty s

abbrev pub mirrored : Option Str → List Effect → List Effect
mirrored child es = if is_root child then es else []

abbrev pub adopt_announced : Str → Option Str → List (ℕ × Client) → List (ℕ × Client)
adopt_announced parent none cs = cs
adopt_announced parent (some s) cs = adopt parent s cs

abbrev pub insert_announced : Option Str → ℕ → List (Str × ℕ) → List (Str × ℕ)
insert_announced none tab children = children
insert_announced (some s) tab children = insert s tab children

-- `forwardExtensionEvent` of an attached tab.
unfoldable pub forward_attached_event : ℕ → Attached → Option Str → Json → Json → Bridge → Bridge
forward_attached_event tab_id a child method params m =
    let session = or_root child a.session_id in
    let announced = announced_child method params in
    let clients = adopt_announced session announced m.clients in
    record m {
      clients = clients;
      children = insert_announced announced tab_id (add_child child tab_id m.children);
      log =
          m.log
          ++ frame_effects session (event (some session) method params) clients
          ++ mirrored child (mirror_effects tab_id method params m.auxiliary);
    }

-- `forwardExtensionEvent`, of which a tab that is not attached has nothing to say.
unfoldable pub forward_extension_event : ℕ → Option Str → Json → Json → Bridge → Bridge
unfolding forward_attached_event
forward_extension_event tab_id child method params m = elim (lookup tab_id m.tabs) [
  | none ↦ m
  | some tab ↦ elim tab.attached [
    | none ↦ m
    | some a ↦ forward_attached_event tab_id a child method params m
  ]
]

-- A tab whose debugger session has this identifier.
unfoldable pub root_tab : Str → List (ℕ × Tab) → Option ℕ
root_tab s [] = none
root_tab s ((id, t) ∷ ts) =
    let rest = root_tab s ts in
    elim t.attached [ none ↦ rest | some a ↦ if a.session_id == s then some id else rest ]

abbrev pub child_route : Option ℕ → Option (ℕ × Bool)
child_route none = none
child_route (some tab) = some (tab, true)

abbrev pub auxiliary_route : Option Auxiliary → Option (ℕ × Bool) → Option (ℕ × Bool)
auxiliary_route none rest = rest
auxiliary_route (some x) rest = some (x.tab, false)

abbrev pub root_route : Option ℕ → Option (ℕ × Bool) → Option (ℕ × Bool)
root_route none rest = rest
root_route (some tab) rest = some (tab, false)

-- `tabBySessionId`: the tab, and whether the session is one of its children.
unfoldable pub tab_by_session_id : Str → Bridge → Option (ℕ × Bool)
unfolding root_tab
tab_by_session_id s m =
    root_route (root_tab s m.tabs)
      (auxiliary_route (lookup s m.auxiliary) (child_route (lookup s m.children)))

-- `tabByTargetId`, as the tab's number.
unfoldable pub tab_by_target_id : Str → List (ℕ × Tab) → Option ℕ
tab_by_target_id target [] = none
tab_by_target_id target ((id, t) ∷ ts) =
    let rest = tab_by_target_id target ts in
    if target_id_for_tab id == target then some id else rest
