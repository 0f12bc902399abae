-- ===== src/Relay/Requests.antt =====
-- The requests of CDP clients to `ExtensionRelayBridge` of extension-relay/relay-bridge.ts, up to
-- their first wait.
use agent_tab_bridge.Base.{
  ℕ, ◌+◌, Bool, true, false, ◌&&◌, Option, none, some, List, [], ◌∷◌, ◌++◌, ◌==◌, if◌then◌else◌,
  nat_eq, list_eq, option_eq,
}
use agent_tab_bridge.Base.Maps.{lookup, insert, delete}
use agent_tab_bridge.Base.Text.{Str, codes}
use agent_tab_bridge.Json.{Json, undefined, null, bool, str, arr, from_list}
use agent_tab_bridge.Relay.Policy.{browser, page, classify_cdp_method, is_allowed}
use agent_tab_bridge.Relay.Protocol.{
  cdp, detach, create_tab, close_tab, activate_tab, text_of, param, resolve_create_target_params,
}
use agent_tab_bridge.Relay.State.{
  Request, Attached, Tab, Client, Auxiliary, Identity, among_all, attaches_to, forwards, detaches,
  creates, closes, activates, close_client, Group, Bridge, decimal, target_id_for_tab, object,
}
use agent_tab_bridge.Relay.Targets.{
  say, target_info_for_tab, emit_detached_from_target, tab_by_session_id, tab_by_target_id,
}
use agent_tab_bridge.Relay.Claims.{
  call_extension, respond, respond_error, server_error, claim_and_attach_tab, owns_browser_session,
  finish_group,
}

abbrev pub policy_error : Str
policy_error = codes "CDP method is not permitted by Agent Tab Bridge"

abbrev pub no_session : Str → Str
no_session s = codes "Session not found: " ++ s

abbrev pub no_target : Str → Str
no_target t = codes "No target with given id found: " ++ t

-- A parameter of the request that is a text that is not empty.
abbrev pub text_param : Str → Request → Option Str
text_param name request = elim (text_of (param name request.params)) [
  | none ↦ none
  | some s ↦ if s == [] then none else some s
]

abbrev pub of_other : ℕ → Option Auxiliary → Bool
of_other client none = false
of_other client (some x) = if x.client == client then false else true

abbrev pub child_session : Bool → Str → Option Str
child_session true s = some s
child_session false s = none

abbrev pub forward : ℕ → Request → Str → Option (ℕ × Bool) → Bridge → Bridge
forward client request s none m = respond_error client request (no_session s) 32001 m
forward client request s (some route) m =
    call_extension (cdp route.0 (child_session route.1 s) request.method request.params)
      (forwards client request) m

-- `handleSessionScopedRequest`, for a session.
unfoldable pub handle_session_scoped_request : ℕ → Request → Str → Bridge → Bridge
handle_session_scoped_request client request s m =
    if is_allowed (classify_cdp_method request.method page)
    then if of_other client (lookup s m.auxiliary)
      then respond_error client request (no_session s) 32001 m
      else forward client request s (tab_by_session_id s m) m
    else respond_error client request policy_error server_error m

abbrev or_text : Json → Str → Json
or_text undefined s = str s
or_text null s = str s
or_text j s = j

abbrev pub version_of : Option (ℕ × Identity) → Json
version_of none = object (
    (codes "protocolVersion", str (codes "1.3"))
    ∷ (codes "product", str (codes "Brave/unknown"))
    ∷ (codes "revision", str (codes "agent-tab-bridge-relay"))
    ∷ (codes "userAgent", str (codes "unknown"))
    ∷ (codes "jsVersion", str [])
    ∷ [])
version_of (some e) = object (
    (codes "protocolVersion", str (codes "1.3"))
    ∷ (codes "product", or_text e.1.browser_version (codes "Brave/unknown"))
    ∷ (codes "revision", str (codes "agent-tab-bridge-relay"))
    ∷ (codes "userAgent", or_text e.1.user_agent (codes "unknown"))
    ∷ (codes "jsVersion", str [])
    ∷ [])

abbrev pub browser_target_id : Str
browser_target_id = codes "agent-tab-bridge-browser"

abbrev pub browser_target_info : Json
browser_target_info = object (
    (codes "targetId", str browser_target_id)
    ∷ (codes "type", str (codes "browser"))
    ∷ (codes "title", str (codes "Agent Tab Bridge"))
    ∷ (codes "url", str [])
    ∷ (codes "attached", bool true)
    ∷ (codes "canAccessOpener", bool false)
    ∷ [])

abbrev pub found_tab : Str → Bridge → Option Tab
found_tab target m = elim (tab_by_target_id target m.tabs) [
  | none ↦ none
  | some tab_id ↦ lookup tab_id m.tabs
]

unfoldable pub get_target_info : ℕ → Request → Bridge → Bridge
get_target_info client request m = elim (text_param (codes "targetId") request) [
  | none ↦ respond client request (object ((codes "targetInfo", browser_target_info) ∷ [])) m
  | some target ↦
      if target == browser_target_id
      then respond client request (object ((codes "targetInfo", browser_target_info) ∷ [])) m
      else elim (found_tab target m) [
        | none ↦ respond_error client request (no_target target) 32602 m
        | some tab ↦
            respond client request
              (object ((codes "targetInfo", target_info_for_tab tab target) ∷ [])) m
      ]
]

unfoldable pub target_infos : List (ℕ × Tab) → List Json
target_infos [] = []
target_infos ((id, tab) ∷ ts) = target_info_for_tab tab (target_id_for_tab id) ∷ target_infos ts

abbrev pub browser_session_id : ℕ → Str
browser_session_id ordinal = codes "agent-tab-bridge-browser-" ++ decimal ordinal

unfoldable pub attach_to_browser_target : ℕ → Request → Bridge → Bridge
attach_to_browser_target client request m =
    let s = browser_session_id m.next_session_ordinal in
    respond client request (object ((codes "sessionId", str s) ∷ [])) (record m {
      next_session_ordinal = m.next_session_ordinal + 1;
      browser_sessions = insert s client m.browser_sessions;
    })

abbrev pub is_false : Json → Bool
is_false (bool false) = true
is_false _ = false

abbrev pub set_flag : Bool → Option Client → ℕ → List (ℕ × Client) → List (ℕ × Client)
set_flag on none client cs = cs
set_flag on (some c) client cs = insert client (record c { auto_attach = on }) cs

unfoldable pub open_results : List (ℕ × Tab) → List (ℕ × Option (Option Attached))
open_results [] = []
open_results ((id, t) ∷ ts) = (id, none) ∷ open_results ts

unfoldable pub claim_all : ℕ → List (ℕ × Tab) → Bridge → Bridge
claim_all number [] m = m
claim_all number ((id, t) ∷ ts) m =
    claim_all number ts (claim_and_attach_tab id (among_all number id) m)

abbrev pub is_nil {ℓ} : {A : Type ℓ} → List A → Bool
is_nil [] = true
is_nil (x ∷ xs) = false

-- All tabs are claimed, under the number of the request's group, which no other group has.
unfoldable pub attach_all : ℕ → Request → Bridge → Bridge
unfolding open_results claim_all
attach_all client request m =
    let g : Group = record { client = client; request = request; results = open_results m.tabs } in
    if is_nil m.tabs
    then finish_group m.next_ref g m
    else claim_all m.next_ref m.tabs
        (record m { groups = insert m.next_ref g m.groups; next_ref = m.next_ref + 1 })

unfoldable pub set_auto_attach : ℕ → Request → Bridge → Bridge
unfolding attach_all
set_auto_attach client request m =
    let on = if is_false (param (codes "autoAttach") request.params) then false else true in
    let flagged = record m { clients = set_flag on (lookup client m.clients) client m.clients } in
    if on then attach_all client request flagged else respond client request (object []) flagged

-- A target that the request names, or an answer that it is missing.
unfoldable pub attach_to_target : ℕ → Request → Bridge → Bridge
attach_to_target client request m = elim (text_param (codes "targetId") request) [
  | none ↦ respond_error client request (codes "targetId is required") 32602 m
  | some target ↦ elim (tab_by_target_id target m.tabs) [
    | none ↦ respond_error client request (no_target target) 32602 m
    | some tab_id ↦ claim_and_attach_tab tab_id (attaches_to client tab_id request) m
  ]
]

unfoldable pub auxiliary_except : ℕ → Str → List (Str × Auxiliary) → List (Str × Auxiliary)
auxiliary_except client parent [] = []
auxiliary_except client parent ((s, x) ∷ xs) =
    let rest = auxiliary_except client parent xs in
    if x.parent == parent && x.client == client then rest else (s, x) ∷ rest

abbrev pub detach_root : ℕ → Request → Option (ℕ × Bool) → Bridge → Bridge
detach_root client request none m = respond client request (object []) m
detach_root client request (some route) m =
    if route.1 then respond client request (object []) m else elim (lookup route.0 m.tabs) [
      | none ↦ respond client request (object []) m
      | some tab ↦ elim tab.attached [
        | none ↦ respond client request (object []) m
        | some a ↦ call_extension (detach route.0) (detaches client request) (
            emit_detached_from_target route.0 a
              (record m { tabs = insert route.0 (record tab { attached = none }) m.tabs }))
      ]
    ]

unfoldable pub detach_session : ℕ → Request → Str → Bridge → Bridge
unfolding auxiliary_except
detach_session client request s m =
    if lookup s m.browser_sessions == some client
    then respond client request (object []) (record m {
      browser_sessions = delete s m.browser_sessions;
      auxiliary = auxiliary_except client s m.auxiliary;
    })
    else elim (lookup s m.auxiliary) [
      | some x ↦
          if x.client == client
          then respond client request (object []) (record m { auxiliary = delete s m.auxiliary })
          else respond_error client request (no_session s) 32001 m
      | none ↦ detach_root client request (tab_by_session_id s m) m
    ]

unfoldable pub detach_from_target : ℕ → Request → Bridge → Bridge
unfolding detach_session
detach_from_target client request m = elim (text_param (codes "sessionId") request) [
  | none ↦ respond client request (object []) m
  | some s ↦ detach_session client request s m
]

abbrev pub url_of : Request → Str
url_of request = elim (text_of (param (codes "url") request.params)) [
  | none ↦ codes "about:blank"
  | some url ↦ url
]

unfoldable pub create_target : ℕ → Request → Bridge → Bridge
create_target client request m =
    elim (resolve_create_target_params (param (codes "background") request.params)
      (param (codes "focus") request.params)) [
        | none ↦
            respond_error client request
              (codes "Target.createTarget does not support background=true with focus=true")
              server_error m
        | some p ↦ call_extension (create_tab (url_of request) p.0 p.1) (creates client request) m
      ]

abbrev pub shown : Option Str → Str
shown none = codes "undefined"
shown (some s) = s

abbrev pub found_target : Request → Bridge → Option ℕ
found_target request m = elim (text_param (codes "targetId") request) [
  | none ↦ none
  | some target ↦ tab_by_target_id target m.tabs
]

abbrev pub target_missing : ℕ → Request → Bridge → Bridge
target_missing client request m =
    respond_error client request
      (no_target (shown (text_of (param (codes "targetId") request.params)))) 32602 m

unfoldable pub close_target : ℕ → Request → Bridge → Bridge
close_target client request m = elim (found_target request m) [
  | none ↦ target_missing client request m
  | some tab_id ↦ call_extension (close_tab tab_id) (closes client request) m
]

unfoldable pub activate_target : ℕ → Request → Bridge → Bridge
activate_target client request m = elim (found_target request m) [
  | none ↦ target_missing client request m
  | some tab_id ↦ call_extension (activate_tab tab_id) (activates client request) m
]

-- The cases that `handleBrowserScopedRequest` tells apart.
pub data BrowserCase : Type 0 where
  on_get_version : BrowserCase
  on_close_browser : BrowserCase
  on_set_discover_targets : BrowserCase
  on_target_info : BrowserCase
  on_targets : BrowserCase
  on_attach_browser : BrowserCase
  on_auto_attach : BrowserCase
  on_attach_target : BrowserCase
  on_detach_target : BrowserCase
  on_create : BrowserCase
  on_close : BrowserCase
  on_activate : BrowserCase
  on_other : BrowserCase

abbrev browser_cases : List (Str × BrowserCase)
browser_cases =
    (codes "Browser.getVersion", on_get_version)
    ∷ (codes "Browser.close", on_close_browser)
    ∷ (codes "Target.setDiscoverTargets", on_set_discover_targets)
    ∷ (codes "Target.getTargetInfo", on_target_info)
    ∷ (codes "Target.getTargets", on_targets)
    ∷ (codes "Target.attachToBrowserTarget", on_attach_browser)
    ∷ (codes "Target.setAutoAttach", on_auto_attach)
    ∷ (codes "Target.attachToTarget", on_attach_target)
    ∷ (codes "Target.detachFromTarget", on_detach_target)
    ∷ (codes "Target.createTarget", on_create)
    ∷ (codes "Target.closeTarget", on_close)
    ∷ (codes "Target.activateTarget", on_activate)
    ∷ []

abbrev or_other : Option BrowserCase → BrowserCase
or_other none = on_other
or_other (some c) = c

-- The case of a method.
unfoldable pub browser_case : Str → BrowserCase
browser_case method = or_other (lookup method browser_cases)

-- What is done in a case.
unfoldable pub browser_action : BrowserCase → ℕ → Request → Bridge → Bridge
unfolding get_target_info attach_to_browser_target set_auto_attach attach_to_target
    detach_from_target create_target close_target activate_target
browser_action on_get_version client request m = respond client request (version_of m.extension) m
browser_action on_close_browser client request m =
    say (close_client client 1000 ∷ []) (respond client request (object []) m)
browser_action on_set_discover_targets client request m = respond client request (object []) m
browser_action on_target_info client request m = get_target_info client request m
browser_action on_targets client request m =
    respond client request
      (object ((codes "targetInfos", arr (from_list (target_infos m.tabs))) ∷ [])) m
browser_action on_attach_browser client request m = attach_to_browser_target client request m
browser_action on_auto_attach client request m = set_auto_attach client request m
browser_action on_attach_target client request m = attach_to_target client request m
browser_action on_detach_target client request m = detach_from_target client request m
browser_action on_create client request m = create_target client request m
browser_action on_close client request m = close_target client request m
browser_action on_activate client request m = activate_target client request m
browser_action on_other client request m =
    respond_error client request (codes "'" ++ request.method ++ codes "' wasn't found") 32601 m

-- `handleBrowserScopedRequest`.
unfoldable pub handle_browser_scoped_request : ℕ → Request → Bridge → Bridge
unfolding browser_action browser_case
handle_browser_scoped_request client request m =
    if is_allowed (classify_cdp_method request.method browser)
    then browser_action (browser_case request.method) client request m
    else respond_error client request policy_error server_error m

-- `handleCdpRequest`: a session of the browser that is the client's own has the browser's scope.
unfoldable pub handle_cdp_request : ℕ → Request → Bridge → Bridge
unfolding handle_session_scoped_request handle_browser_scoped_request
handle_cdp_request client request m = elim request.session [
  | none ↦ handle_browser_scoped_request client request m
  | some s ↦
      if owns_browser_session client (some s) m
      then handle_browser_scoped_request client request m
      else handle_session_scoped_request client request s m
]
