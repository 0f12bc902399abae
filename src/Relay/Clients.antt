-- ===== src/Relay/Clients.antt =====
-- The CDP clients' side of `ExtensionRelayBridge` of extension-relay/relay-bridge.ts:
-- `attachCdpClientSocket`.
use agent_tab_bridge.Base.{
  ℕ, Bool, true, false, ◌||◌, Option, none, some, List, [], ◌∷◌, ◌==◌, if◌then◌else◌, nat_eq,
  list_eq,
}
use agent_tab_bridge.Base.Maps.{lookup, insert}
use agent_tab_bridge.Base.Text.{Str, codes}
use agent_tab_bridge.Json.{Json, null, num, other_num, str, obj, Fields, get}
use agent_tab_bridge.Relay.Protocol.{detach, text_of}
use agent_tab_bridge.Relay.State.{
  Request, Tab, Client, Auxiliary, ignores, tell, close_client, failure, Bridge,
}
use agent_tab_bridge.Relay.Targets.{say, emit_detached_from_target}
use agent_tab_bridge.Relay.Claims.{call_extension}
use agent_tab_bridge.Relay.Requests.{handle_cdp_request}

-- The part of `attachCdpClientSocket` that runs at once. A socket is attached once.
unfoldable pub attach_cdp_client_socket : ℕ → Bridge → Bridge
attach_cdp_client_socket client m =
    if m.closing || m.disposed
    then say (close_client client 1001 ∷ []) m
    else elim (lookup client m.clients) [
      | some c ↦ m
      | none ↦ record m {
        clients =
            insert client (record { connected = true; auto_attach = false; announced = [] })
              m.clients;
      }
    ]

abbrev pub refuse : ℕ → Json → Option Str → Str → ℕ → Bridge → Bridge
refuse client id session message code m = say (tell client (failure id session message code) ∷ []) m

abbrev is_number : Json → Bool
is_number (num n) = true
is_number (other_num s) = true
is_number _ = false

abbrev session_of : Json → Option Str
session_of (str []) = none
session_of (str (c ∷ s)) = some (c ∷ s)
session_of _ = none

abbrev pub id_or_null : Json → Json
id_or_null id = if is_number id then id else null

-- A request has a number and the name of a method.
abbrev pub request_of : Json → Option Str → Fields → Option Request
request_of id none fs = none
request_of id (some method) fs =
    if is_number id
    then some (record {
      id = id;
      method = method;
      params = get (codes "params") fs;
      session = session_of (get (codes "sessionId") fs);
    })
    else none

abbrev pub handle_request : ℕ → Fields → Option Request → Bridge → Bridge
handle_request client fs (some request) m = handle_cdp_request client request m
handle_request client fs none m =
    refuse client (id_or_null (get (codes "id") fs)) (text_of (get (codes "sessionId") fs))
      (codes "Invalid request") 32600 m

abbrev pub client_message : ℕ → Option Json → Bridge → Bridge
client_message client none m = refuse client null none (codes "Parse error") 32700 m
client_message client (some (obj fs)) m =
    handle_request client fs
      (request_of (get (codes "id") fs) (text_of (get (codes "method") fs)) fs) m
client_message client (some j) m = refuse client null none (codes "Invalid request") 32600 m

-- A message of a client, as `JSON.parse` gives it, or `none` where that throws.
unfoldable pub on_client_message : ℕ → Option Json → Bridge → Bridge
unfolding handle_cdp_request
on_client_message client raw m =
    if m.closing || m.disposed
    then m
    else elim (lookup client m.clients) [ none ↦ m | some c ↦ client_message client raw m ]

unfoldable pub any_connected : List (ℕ × Client) → Bool
any_connected [] = false
any_connected ((id, c) ∷ cs) = c.connected || any_connected cs

abbrev pub detach_idle_tab : ℕ → Tab → Bridge → Bridge
detach_idle_tab tab_id tab m = elim tab.attached [
  | none ↦ m
  | some a ↦ call_extension (detach tab_id) ignores (
      emit_detached_from_target tab_id a
        (record m { tabs = insert tab_id (record tab { attached = none }) m.tabs }))
]

unfoldable pub detach_all : List (ℕ × Tab) → Bridge → Bridge
detach_all [] m = m
detach_all ((tab_id, tab) ∷ ts) m = detach_all ts (detach_idle_tab tab_id tab m)

-- `detachAllWhenIdle`.
unfoldable pub detach_all_when_idle : Bridge → Bridge
unfolding any_connected detach_all
detach_all_when_idle m =
    if any_connected m.clients
    then m
    else elim m.extension [ none ↦ m | some e ↦ detach_all m.tabs m ]

unfoldable pub sessions_of_others : ℕ → List (Str × ℕ) → List (Str × ℕ)
sessions_of_others client [] = []
sessions_of_others client ((s, c) ∷ ss) =
    let rest = sessions_of_others client ss in if c == client then rest else (s, c) ∷ rest

unfoldable pub auxiliary_of_others : ℕ → List (Str × Auxiliary) → List (Str × Auxiliary)
auxiliary_of_others client [] = []
auxiliary_of_others client ((s, x) ∷ xs) =
    let rest = auxiliary_of_others client xs in if x.client == client then rest else (s, x) ∷ rest

abbrev pub disconnect : ℕ → Option Client → List (ℕ × Client) → List (ℕ × Client)
disconnect client none cs = cs
disconnect client (some c) cs = insert client (record c { connected = false }) cs

-- A client's socket closes. One that was never attached has nothing to lose.
unfoldable pub on_client_close : ℕ → Bridge → Bridge
unfolding detach_all_when_idle sessions_of_others auxiliary_of_others
on_client_close client m = elim (lookup client m.clients) [
  | none ↦ m
  | some c ↦ detach_all_when_idle (record m {
    clients = disconnect client (some c) m.clients;
    browser_sessions = sessions_of_others client m.browser_sessions;
    auxiliary = auxiliary_of_others client m.auxiliary;
  })
]
