-- ===== src/Relay/Protocol.antt =====
-- The messages of the relay: extension-relay/relay-protocol.ts, `resolveCreateTargetParams` of
-- create-target-params.ts, and `isRelayTabInfo` of relay-bridge.ts. A field that is absent, or has a
-- type that the protocol does not declare for it, is `undefined` or `none`.
use agent_tab_bridge.Base.{
  ℕ, Bool, true, false, not, ◌&&◌, ◌||◌, Option, none, some, List, [], ◌∷◌, ◌==◌, leb,
  if◌then◌else◌, nat_eq, list_eq,
}
use Prim.Native.String.{String}
use agent_tab_bridge.Base.Text.{Str, codes}
use agent_tab_bridge.Json.{Json, undefined, bool, num, str, arr, obj, Fields, get, to_list}

-- `RelayTabInfo`.
pub record TabInfo : Type 0 where
  pub tab_id : ℕ
  pub url : Str
  pub title : Str
  pub active : Bool

-- `ExtensionToRelayMessage`.
pub data ExtensionMessage : Type 0 where
  hello : Json → Json → Json → Json → ExtensionMessage
  tabs : Json → ExtensionMessage
  cdp_event : Json → Option Str → Json → Json → ExtensionMessage
  result : Json → Json → ExtensionMessage
  error : Json → Json → ExtensionMessage
  detached : Json → ExtensionMessage
  pong : ExtensionMessage

-- `RelayCommandBody`.
pub data Command : Type 0 where
  cdp : ℕ → Option Str → Str → Json → Command
  attach : ℕ → Command
  detach : ℕ → Command
  create_tab : Str → Bool → Bool → Command
  close_tab : ℕ → Command
  activate_tab : ℕ → Command

abbrev pub text_of : Json → Option Str
text_of (str s) = some s
text_of _ = none

abbrev field_of : String → Fields → Json
field_of name fs = get (codes name) fs

-- The cases of `parseExtensionMessage`, by the type of the message.
unfoldable pub read_message : Str → Fields → Option ExtensionMessage
read_message type fs =
    if type == codes "hello"
    then some (
        hello (field_of "userAgent" fs) (field_of "browserVersion" fs)
          (field_of "extensionVersion" fs) (field_of "tabs" fs))
    else if type == codes "tabs"
    then some (tabs (field_of "tabs" fs))
    else if type == codes "cdpEvent"
    then some (
        cdp_event (field_of "tabId" fs) (text_of (field_of "sessionId" fs)) (field_of "method" fs)
          (field_of "params" fs))
    else if type == codes "result"
    then some (result (field_of "seq" fs) (field_of "result" fs))
    else if type == codes "error"
    then some (error (field_of "seq" fs) (field_of "message" fs))
    else if type == codes "detached"
    then some (detached (field_of "tabId" fs))
    else if type == codes "pong"
    then some pong
    else none

abbrev read_typed : Option Str → Fields → Option ExtensionMessage
read_typed none fs = none
read_typed (some type) fs = read_message type fs

-- `parseExtensionMessage` of what `JSON.parse` gives, or of `none` where it throws.
unfoldable pub parse_extension_message : Option Json → Option ExtensionMessage
unfolding read_message
parse_extension_message (some (obj fs)) = read_typed (text_of (get (codes "type") fs)) fs
parse_extension_message _ = none

abbrev pub max_safe_integer : ℕ
max_safe_integer = 9007199254740991

abbrev tab_info_of : Json → Json → Json → Json → Option TabInfo
tab_info_of (num n) (str url) (str title) (bool active) =
    if leb n max_safe_integer
    then some (record { tab_id = n; url = url; title = title; active = active })
    else none
tab_info_of _ _ _ _ = none

-- `isRelayTabInfo`, with the information that it lets through.
unfoldable pub relay_tab_info : Json → Option TabInfo
relay_tab_info (obj fs) =
    tab_info_of (field_of "tabId" fs) (field_of "url" fs) (field_of "title" fs)
      (field_of "active" fs)
relay_tab_info _ = none

unfoldable pub valid_among : List Json → List TabInfo
unfolding relay_tab_info
valid_among [] = []
valid_among (j ∷ js) = elim (relay_tab_info j) [
  | none ↦ valid_among js
  | some info ↦ info ∷ valid_among js
]

-- `(Array.isArray(tabs) ? tabs : []).filter(isRelayTabInfo)`.
unfoldable pub valid_tabs : Json → List TabInfo
unfolding valid_among
valid_tabs (arr items) = valid_among (to_list items)
valid_tabs _ = []

-- `params?.name`.
abbrev pub param : Str → Json → Json
param name (obj fs) = get name fs
param name _ = undefined

abbrev is_bool : Bool → Json → Bool
is_bool true (bool true) = true
is_bool false (bool false) = true
is_bool _ _ = false

abbrev is_undefined : Json → Bool
is_undefined undefined = true
is_undefined _ = false

-- `resolveCreateTargetParams`, of the two parameters: whether the tab is opened in the background,
-- and whether it gets the focus. It throws if both are asked for.
unfoldable pub resolve_create_target_params : Json → Json → Option (Bool × Bool)
resolve_create_target_params background focus =
    if is_bool true background && is_bool true focus
    then none
    else let resolved =
        if is_undefined focus
        then not (is_bool false background)
        else is_bool true background && is_bool false focus in
      some (resolved, is_bool true focus || (is_undefined focus && not resolved))
