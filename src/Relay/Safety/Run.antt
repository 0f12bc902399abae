-- ===== src/Relay/Safety/Run.antt =====
-- The events of the relay's bridge in any order: extension-relay/relay-bridge.ts.
use agent_tab_bridge.Base.{
  ℕ, ◌≡◌, ap, Bool, true, false, ◌||◌, Option, none, some, List, [], ◌∷◌, ◌++◌, ◌==◌, All, All-left,
  All-right, All-map, if_ind, option_ind, nat_eq, list_eq, contains, eq_refl, arith,
}
use agent_tab_bridge.Base.Maps.{lookup, insert, Entries, Entries-insert}
use agent_tab_bridge.Base.Text.{Str}
use agent_tab_bridge.Json.{Json, undefined, null, bool, num, other_num, str, arr, obj, Fields}
use agent_tab_bridge.Relay.Protocol.{Command, detach, parse_extension_message}
use agent_tab_bridge.Relay.State.{
  Request, Tab, Client, Auxiliary, Identity, ignores, tell, close_client, failure, Bridge,
  new_bridge,
}
use agent_tab_bridge.Relay.Targets.{emit_detached_from_target}
use agent_tab_bridge.Relay.Claims.{call_extension}
use agent_tab_bridge.Relay.Extension.{reject_pending, reject_waiters}
use agent_tab_bridge.Relay.Clients.{
  attach_cdp_client_socket, refuse, handle_request, client_message, on_client_message,
  any_connected, detach_idle_tab, detach_all, detach_all_when_idle, sessions_of_others,
  auxiliary_of_others, disconnect, on_client_close,
}
use agent_tab_bridge.Relay.Steps.{
  stopped, close_all, detach_attached, clear, detach_if_connected, dispose, close_extension_of,
  finish_dispose, Event, extension_connects, extension_sends, extension_closes, client_connects,
  client_sends, client_closes, job_runs, command_expires, wait_expires, ping_is_due, disposes,
  detach_ends, step, run,
}
use agent_tab_bridge.Relay.Safety.Invariant.{
  Sends, Allowed, Permitted, TabKnown, AuxiliaryKnown, Safe, say-Safe, with_tabs-Safe,
  with_sessions-Safe, call_extension-Safe,
}
use agent_tab_bridge.Relay.Safety.Sessions.{emit_detached_from_target-Safe}
use agent_tab_bridge.Relay.Safety.Extension.{
  tabs_of, reject_pending-Safe, reject_waiters-Safe, attach_extension_socket-Safe,
  on_extension_message-Safe, on_extension_close-Safe, ping_ticks-Safe,
}
use agent_tab_bridge.Relay.Safety.Jobs.{run_one-Safe, command_times_out-Safe, waiter_times_out-Safe}
use agent_tab_bridge.Relay.Safety.Requests.{handle_cdp_request-Safe}

-- The tabs that the extension reports in an event.
unfoldable pub tabs_in : Event → List ℕ
unfolding tabs_of
tabs_in (extension_sends socket raw) = tabs_of (parse_extension_message raw)
tabs_in _ = []

unfoldable pub reported_tabs : List Event → List ℕ
unfolding tabs_in
reported_tabs [] = []
reported_tabs (e ∷ es) = tabs_in e ++ reported_tabs es

module _ (P : Command → Type 0) where
  pub close_all-Sends : (cs : List (ℕ × Client)) → All (Sends P) (close_all cs)
  unfolding close_all
  close_all-Sends [] = tt
  close_all-Sends ((id, c) ∷ cs) =
      let ih = close_all-Sends cs in if_ind (All (Sends P)) c.connected (λ e. (tt, ih)) (λ e. ih)

  pub close_extension_of-Sends : (o : Option (ℕ × Identity)) → All (Sends P) (close_extension_of o)
  close_extension_of-Sends none = tt
  close_extension_of-Sends (some e) = (tt, tt)

module _ (K : ℕ → Type 0) where
  attach_cdp_client_socket-Safe :
      (client : ℕ) (m : Bridge) → Safe K m → Safe K (attach_cdp_client_socket client m)
  unfolding attach_cdp_client_socket
  attach_cdp_client_socket-Safe client m h =
      if_ind (Safe K) (m.closing || m.disposed)
        (λ e. say-Safe K (close_client client 1001 ∷ []) m (tt, tt) h)
        (λ e. option_ind (Safe K) (lookup client m.clients) (λ d. h) (λ c d. h))

  refuse-Safe :
      (client : ℕ) (id : Json) (session : Option Str) (message : Str) (code : ℕ) (m : Bridge)
      → Safe K m
      → Safe K (refuse client id session message code m)
  refuse-Safe client id session message code m h =
      say-Safe K (tell client (failure id session message code) ∷ []) m (tt, tt) h

  handle_request-Safe :
      (client : ℕ) (fs : Fields) (o : Option Request) (m : Bridge)
      → Safe K m
      → Safe K (handle_request client fs o m)
  handle_request-Safe client fs (some request) m h = handle_cdp_request-Safe K client request m h
  handle_request-Safe client fs none m h = refuse-Safe client _ _ _ 32600 m h

  client_message-Safe :
      (client : ℕ) (raw : Option Json) (m : Bridge)
      → Safe K m
      → Safe K (client_message client raw m)
  client_message-Safe client none m h = refuse-Safe client null none _ 32700 m h
  client_message-Safe client (some (obj fs)) m h = handle_request-Safe client fs _ m h
  client_message-Safe client (some undefined) m h = refuse-Safe client null none _ 32600 m h
  client_message-Safe client (some null) m h = refuse-Safe client null none _ 32600 m h
  client_message-Safe client (some (bool b)) m h = refuse-Safe client null none _ 32600 m h
  client_message-Safe client (some (num n)) m h = refuse-Safe client null none _ 32600 m h
  client_message-Safe client (some (other_num s)) m h = refuse-Safe client null none _ 32600 m h
  client_message-Safe client (some (str s)) m h = refuse-Safe client null none _ 32600 m h
  client_message-Safe client (some (arr items)) m h = refuse-Safe client null none _ 32600 m h

  on_client_message-Safe :
      (client : ℕ) (raw : Option Json) (m : Bridge)
      → Safe K m
      → Safe K (on_client_message client raw m)
  unfolding on_client_message
  on_client_message-Safe client raw m h =
      if_ind (Safe K) (m.closing || m.disposed) (λ e. h)
        (λ e.
          option_ind (Safe K) (lookup client m.clients) (λ d. h)
            (λ c d. client_message-Safe client raw m h))

  detach_idle_tab-Safe :
      (tab_id : ℕ) (tab : Tab) (m : Bridge)
      → K tab_id
      → Safe K m
      → Safe K (detach_idle_tab tab_id tab m)
  detach_idle_tab-Safe tab_id tab m k h =
      option_ind (Safe K) tab.attached (λ e. h)
        (λ a e.
          let ts = insert tab_id (record tab { attached = none }) m.tabs in
          call_extension-Safe K (detach tab_id) ignores
            (emit_detached_from_target tab_id a (record m { tabs = ts })) k tt
            (emit_detached_from_target-Safe K tab_id a (record m { tabs = ts })
              (with_tabs-Safe K ts m
                (Entries-insert (TabKnown K) tab_id (record tab { attached = none }) m.tabs
                  h.safe_tabs k)
                h)))

  detach_all-Safe :
      (ts : List (ℕ × Tab)) (m : Bridge)
      → Entries (TabKnown K) ts
      → Safe K m
      → Safe K (detach_all ts m)
  unfolding detach_all
  detach_all-Safe [] m k h = h
  detach_all-Safe ((tab_id, tab) ∷ ts) m k h =
      detach_all-Safe ts (detach_idle_tab tab_id tab m) k.1
        (detach_idle_tab-Safe tab_id tab m k.0 h)

  detach_all_when_idle-Safe : (m : Bridge) → Safe K m → Safe K (detach_all_when_idle m)
  unfolding detach_all_when_idle
  detach_all_when_idle-Safe m h =
      if_ind (Safe K) (any_connected m.clients) (λ e. h)
        (λ e.
          option_ind (Safe K) m.extension (λ d. h) (λ x d. detach_all-Safe m.tabs m h.safe_tabs h))

  auxiliary_of_others-Known :
      (client : ℕ) (xs : List (Str × Auxiliary))
      → Entries (AuxiliaryKnown K) xs
      → Entries (AuxiliaryKnown K) (auxiliary_of_others client xs)
  unfolding auxiliary_of_others
  auxiliary_of_others-Known client [] h = tt
  auxiliary_of_others-Known client ((s, x) ∷ xs) h =
      let ih = auxiliary_of_others-Known client xs h.1 in
      if_ind (Entries (AuxiliaryKnown K)) (x.client == client) (λ e. ih) (λ e. (h.0, ih))

  on_client_close-Safe : (client : ℕ) (m : Bridge) → Safe K m → Safe K (on_client_close client m)
  unfolding on_client_close
  on_client_close-Safe client m h =
      option_ind (Safe K) (lookup client m.clients) (λ e. h)
        (λ c e.
          detach_all_when_idle-Safe
            (record m {
              clients = disconnect client (some c) m.clients;
              browser_sessions = sessions_of_others client m.browser_sessions;
              auxiliary = auxiliary_of_others client m.auxiliary;
            })
            (with_sessions-Safe K (auxiliary_of_others client m.auxiliary) m.children m
              (auxiliary_of_others-Known client m.auxiliary h.safe_auxiliary) h.safe_children h))

  clear-Safe : (m : Bridge) → Safe K m → Safe K (clear m)
  clear-Safe m h =
      let empty = record m { auxiliary = []; children = [] } in
      say-Safe K (close_all m.clients) (record empty { tabs = [] })
        (close_all-Sends (Allowed K) m.clients)
        (with_tabs-Safe K [] empty tt (with_sessions-Safe K [] [] m tt tt h))

  detach_attached-Safe :
      (ts : List (ℕ × Tab)) (m : Bridge)
      → Entries (TabKnown K) ts
      → Safe K m
      → Safe K (detach_attached ts m)
  unfolding detach_attached
  detach_attached-Safe [] m k h = h
  detach_attached-Safe ((tab_id, tab) ∷ ts) m k h =
      detach_attached-Safe ts
        (elim tab.attached [ none ↦ m | some a ↦ call_extension (detach tab_id) ignores m ]) k.1
        (option_ind (Safe K) tab.attached (λ e. h)
          (λ a e. call_extension-Safe K (detach tab_id) ignores m k.0 tt h))

  detach_if_connected-Safe :
      (o : Option (ℕ × Identity)) (ts : List (ℕ × Tab)) (m : Bridge)
      → Entries (TabKnown K) ts
      → Safe K m
      → Safe K (detach_if_connected o ts m)
  detach_if_connected-Safe none ts m k h = h
  detach_if_connected-Safe (some e) ts m k h = detach_attached-Safe ts m k h

  dispose-Safe : (m : Bridge) → Safe K m → Safe K (dispose m)
  unfolding dispose
  dispose-Safe m h =
      let closed = record m { closing = true; pinging = false } in
      let rejected = reject_waiters (reject_pending stopped closed) in
      if_ind (Safe K) m.closing (λ e. h)
        (λ e. detach_if_connected-Safe m.extension m.tabs (clear rejected) h.safe_tabs (
          clear-Safe rejected (
            reject_waiters-Safe K (reject_pending stopped closed)
              (reject_pending-Safe K stopped closed h))))

  finish_dispose-Safe : (m : Bridge) → Safe K m → Safe K (finish_dispose m)
  unfolding finish_dispose reject_pending
  finish_dispose-Safe m h =
      if_ind (Safe K) m.closing
        (λ e.
          say-Safe K (close_extension_of m.extension) (reject_pending stopped m)
            (close_extension_of-Sends (Allowed K) m.extension) (reject_pending-Safe K stopped m h))
        (λ e. h)

  step-Safe : (e : Event) (m : Bridge) → All K (tabs_in e) → Safe K m → Safe K (step e m)
  unfolding step tabs_in
  step-Safe (extension_connects socket) m k h = attach_extension_socket-Safe K socket m h
  step-Safe (extension_sends socket raw) m k h = on_extension_message-Safe K socket raw m k h
  step-Safe (extension_closes socket) m k h = on_extension_close-Safe K socket m h
  step-Safe (client_connects client) m k h = attach_cdp_client_socket-Safe client m h
  step-Safe (client_sends client raw) m k h = on_client_message-Safe client raw m h
  step-Safe (client_closes client) m k h = on_client_close-Safe client m h
  step-Safe (job_runs n) m k h = run_one-Safe K n m h
  step-Safe (command_expires seq) m k h = command_times_out-Safe K seq m h
  step-Safe (wait_expires tab_id n) m k h = waiter_times_out-Safe K tab_id n m h
  step-Safe (ping_is_due sends) m k h = ping_ticks-Safe K sends m h
  step-Safe disposes m k h = dispose-Safe m h
  step-Safe detach_ends m k h = finish_dispose-Safe m h

  run-Safe :
      (es : List Event) (m : Bridge) → All K (reported_tabs es) → Safe K m → Safe K (run es m)
  unfolding run reported_tabs
  run-Safe [] m k h = h
  run-Safe (e ∷ es) m k h =
      run-Safe es (step e m) (All-right K (tabs_in e) (reported_tabs es) k)
        (step-Safe e m (All-left K (tabs_in e) (reported_tabs es) k) h)

-- That a tab has been reported.
abbrev pub Reported : List Event → ℕ → Type 0
Reported es tab_id = contains (reported_tabs es) tab_id ≡ true

contains_self : (xs : List ℕ) → All (λ x. contains xs x ≡ true) xs
contains_self [] = tt
contains_self (x ∷ xs) = (
  ap (λ b. b || contains xs x) (eq_refl x),
  All-map (λ y. contains xs y ≡ true) (λ y. contains (x ∷ xs) y ≡ true) xs
      (λ y e. right (x == y) (contains xs y) e) (contains_self xs),
)
  where
    right : (a b : Bool) → b ≡ true → (a || b) ≡ true
    right a b e = ground arith

-- Whatever the events and their order, what the bridge has sent to the extension is permitted: a CDP
-- command carries a method that is allowed for pages, and each command that names a tab names one
-- that the extension has reported in one of the events.
pub run-Permitted : (es : List Event) → All (Permitted (Reported es)) (run es new_bridge).log
run-Permitted es =
    (run-Safe (Reported es) es new_bridge (contains_self (reported_tabs es)) (record {
      safe_log = tt;
      safe_tabs = tt;
      safe_auxiliary = tt;
      safe_children = tt;
      safe_pending = tt;
      safe_claims = tt;
      safe_jobs = tt;
    })).safe_log
