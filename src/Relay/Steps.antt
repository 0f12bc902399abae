-- ===== src/Relay/Steps.antt =====
-- `ExtensionRelayBridge` of extension-relay/relay-bridge.ts as a machine: `dispose`, and the events
-- that come from the extension, the clients, the timers and the ends of promises, in any order.
use agent_tab_bridge.Base.{
  ℕ, Bool, true, false, Option, none, some, List, [], ◌∷◌, ◌++◌, if◌then◌else◌,
}
use agent_tab_bridge.Base.Text.{Str, codes}
use agent_tab_bridge.Json.{Json}
use agent_tab_bridge.Relay.Protocol.{detach}
use agent_tab_bridge.Relay.State.{
  Tab, Client, Identity, ignores, Effect, close_extension, close_client, Bridge,
}
use agent_tab_bridge.Relay.Claims.{call_extension}
use agent_tab_bridge.Relay.Extension.{
  reject_pending, reject_waiters, attach_extension_socket, on_extension_message, on_extension_close,
  ping_ticks,
}
use agent_tab_bridge.Relay.Jobs.{run_one, command_times_out, waiter_times_out}
use agent_tab_bridge.Relay.Clients.{attach_cdp_client_socket, on_client_message, on_client_close}

abbrev pub stopped : Str
stopped = codes "Agent Tab Bridge relay stopped"

unfoldable pub close_all : List (ℕ × Client) → List Effect
close_all [] = []
close_all ((id, c) ∷ cs) =
    let rest = close_all cs in if c.connected then close_client id 1001 ∷ rest else rest

unfoldable pub disconnect_all : List (ℕ × Client) → List (ℕ × Client)
disconnect_all [] = []
disconnect_all ((id, c) ∷ cs) = (id, record c { connected = false }) ∷ disconnect_all cs

unfoldable pub detach_attached : List (ℕ × Tab) → Bridge → Bridge
detach_attached [] m = m
detach_attached ((tab_id, tab) ∷ ts) m =
    detach_attached ts
      (elim tab.attached [ none ↦ m | some a ↦ call_extension (detach tab_id) ignores m ])

abbrev pub clear : Bridge → Bridge
clear m = record m {
  clients = disconnect_all m.clients;
  browser_sessions = [];
  auxiliary = [];
  tabs = [];
  children = [];
  log = m.log ++ close_all m.clients;
}

abbrev pub detach_if_connected : Option (ℕ × Identity) → List (ℕ × Tab) → Bridge → Bridge
detach_if_connected none ts m = m
detach_if_connected (some e) ts m = detach_attached ts m

-- `dispose`, up to the wait for the extension to detach.
unfoldable pub dispose : Bridge → Bridge
unfolding reject_pending reject_waiters close_all disconnect_all detach_attached
dispose m =
    if m.closing
    then m
    else detach_if_connected m.extension m.tabs (
        clear
          (reject_waiters (reject_pending stopped (record m { closing = true; pinging = false }))))

abbrev pub close_extension_of : Option (ℕ × Identity) → List Effect
close_extension_of none = []
close_extension_of (some e) = close_extension e.0 1001 ∷ []

-- The rest of `dispose`.
unfoldable pub finish_dispose : Bridge → Bridge
unfolding reject_pending
finish_dispose m =
    if m.closing
    then record (reject_pending stopped m) {
      log = m.log ++ close_extension_of m.extension;
      extension = none;
      disposed = true;
    }
    else m

pub data Event : Type 0 where
  extension_connects : ℕ → Event
  extension_sends : ℕ → Option Json → Event
  extension_closes : ℕ → Event
  client_connects : ℕ → Event
  client_sends : ℕ → Option Json → Event
  client_closes : ℕ → Event
  job_runs : ℕ → Event
  command_expires : ℕ → Event
  wait_expires : ℕ → ℕ → Event
  ping_is_due : Bool → Event
  disposes : Event
  detach_ends : Event

unfoldable pub step : Event → Bridge → Bridge
step (extension_connects socket) m = attach_extension_socket socket m
step (extension_sends socket raw) m = on_extension_message socket raw m
step (extension_closes socket) m = on_extension_close socket m
step (client_connects client) m = attach_cdp_client_socket client m
step (client_sends client raw) m = on_client_message client raw m
step (client_closes client) m = on_client_close client m
step (job_runs n) m = run_one n m
step (command_expires seq) m = command_times_out seq m
step (wait_expires tab_id n) m = waiter_times_out tab_id n m
step (ping_is_due sends) m = ping_ticks sends m
step disposes m = dispose m
step detach_ends m = finish_dispose m

unfoldable pub run : List Event → Bridge → Bridge
unfolding step
run [] m = m
run (e ∷ es) m = run es (step e m)
