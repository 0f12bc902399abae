-- ===== src/Relay/Safety/Withdrawn.antt =====
-- The events of the relay's bridge of extension-relay/relay-bridge.ts after `dispose`.
use agent_tab_bridge.Base.{
  ℕ, ◌≡◌, refl, true_false, ap, Bool, true, false, ◌||◌, Option, none, some, List, [], ◌∷◌, All,
  if_ind, if◌then◌else◌, option_ind, nat_eq, list_eq,
}
use agent_tab_bridge.Base.Maps.{lookup}
use agent_tab_bridge.Relay.Protocol.{Command, detach}
use agent_tab_bridge.Relay.State.{
  Tab, Identity, ignores, Effect, ping, close_extension, close_client, Bridge,
}
use agent_tab_bridge.Relay.Targets.{say}
use agent_tab_bridge.Relay.Claims.{call_extension}
use agent_tab_bridge.Relay.Extension.{
  settle_pending, reject_pending, reject_waiters, attach_extension_socket, on_extension_message,
  is_current, on_extension_close, ping_ticks,
}
use agent_tab_bridge.Relay.Jobs.{take_job, run_one, command_times_out, waiter_times_out}
use agent_tab_bridge.Relay.Clients.{attach_cdp_client_socket, on_client_message}
use agent_tab_bridge.Relay.Steps.{
  stopped, close_all, clear, detach_attached, detach_if_connected, dispose, close_extension_of,
  finish_dispose, Event, extension_connects, extension_sends, extension_closes, client_connects,
  client_sends, client_closes, job_runs, command_expires, wait_expires, ping_is_due, disposes,
  detach_ends, step, run,
}
use agent_tab_bridge.Relay.Safety.Invariant.{Sends}
use agent_tab_bridge.Relay.Safety.Run.{close_extension_of-Sends, close_all-Sends}
use agent_tab_bridge.Relay.Safety.Closing.{
  uses, call_detach-Still, Detaches, Still, say-Still, run_job-Still, handle_extension_gone-Still,
  on_client_close-Still,
}

module _ (cs : List Command) where
  stays : (m x : Bridge) → Still cs m → Still cs (if m.closing || m.disposed then m else x)
  stays m x h =
      if_ind (Still cs) (m.closing || m.disposed) (λ e. h)
        (λ e. true_false (ap (λ b. b || m.disposed) h.0) e)

  run_one-Still : (n : ℕ) (m : Bridge) → Still cs m → Still cs (run_one n m)
  unfolding run_one
  run_one-Still n m h =
      option_ind (Still cs) (take_job n m.jobs) (λ e. h)
        (λ p e. run_job-Still cs p.0 (record m { jobs = p.1 }) h)

  command_times_out-Still : (seq : ℕ) (m : Bridge) → Still cs m → Still cs (command_times_out seq m)
  unfolding command_times_out settle_pending
  command_times_out-Still seq m h =
      option_ind (Still cs) (lookup seq m.pending) (λ e. h)
        (λ await e. option_ind (Still cs) (lookup seq m.pending) (λ d. h) (λ again d. h))

  waiter_times_out-Still :
      (tab_id n : ℕ) (m : Bridge) → Still cs m → Still cs (waiter_times_out tab_id n m)
  unfolding waiter_times_out
  waiter_times_out-Still tab_id n m h =
      option_ind (Still cs) (lookup tab_id m.waiters) (λ e. h)
        (λ ws e. option_ind (Still cs) (lookup n ws) (λ d. h) (λ w d. h))

  refuses-Still :
      (es : List Effect) (m x : Bridge)
      → All (Sends Detaches) es
      → Still cs m
      → Still cs (if m.closing || m.disposed then say es m else x)
  refuses-Still es m x p h =
      if_ind (Still cs) (m.closing || m.disposed) (λ e. say-Still cs es m p h)
        (λ e. true_false (ap (λ b. b || m.disposed) h.0) e)

  attach_extension_socket-Still :
      (socket : ℕ) (m : Bridge) → Still cs m → Still cs (attach_extension_socket socket m)
  unfolding attach_extension_socket
  attach_extension_socket-Still socket m h =
      refuses-Still (close_extension socket 1001 ∷ []) m _ (tt, tt) h

  attach_cdp_client_socket-Still :
      (client : ℕ) (m : Bridge) → Still cs m → Still cs (attach_cdp_client_socket client m)
  unfolding attach_cdp_client_socket
  attach_cdp_client_socket-Still client m h =
      refuses-Still (close_client client 1001 ∷ []) m _ (tt, tt) h

  on_extension_close-Still :
      (socket : ℕ) (m : Bridge) → Still cs m → Still cs (on_extension_close socket m)
  unfolding on_extension_close
  on_extension_close-Still socket m h =
      if_ind (Still cs) (is_current socket m.extension) (λ e. handle_extension_gone-Still cs m h)
        (λ e. h)

  ping_ticks-Still : (sends : Bool) (m : Bridge) → Still cs m → Still cs (ping_ticks sends m)
  unfolding ping_ticks
  ping_ticks-Still sends m h =
      let gone = handle_extension_gone-Still cs m h in
      if_ind (Still cs) m.pinging
        (λ e.
          option_ind (Still cs) m.extension (λ d. gone)
            (λ x d.
              if_ind (Still cs) sends (λ s. say-Still cs (ping ∷ []) m (tt, tt) h) (λ s. gone)))
        (λ e. h)

  detach_attached-Still :
      (ts : List (ℕ × Tab)) (m : Bridge) → Still cs m → Still cs (detach_attached ts m)
  unfolding detach_attached
  detach_attached-Still [] m h = h
  detach_attached-Still ((tab_id, tab) ∷ ts) m h =
      detach_attached-Still ts
        (elim tab.attached [ none ↦ m | some a ↦ call_extension (detach tab_id) ignores m ])
        (option_ind (Still cs) tab.attached (λ e. h)
          (λ a e. call_detach-Still cs tab_id ignores m h))

  detach_if_connected-Still :
      (o : Option (ℕ × Identity)) (ts : List (ℕ × Tab)) (m : Bridge)
      → Still cs m
      → Still cs (detach_if_connected o ts m)
  detach_if_connected-Still none ts m h = h
  detach_if_connected-Still (some e) ts m h = detach_attached-Still ts m h

  -- It is closing after `dispose`, and has sent no other command meanwhile.
  dispose-Still : (m : Bridge) → uses m.log ≡ cs → Still cs (dispose m)
  unfolding dispose reject_pending reject_waiters
  dispose-Still m h =
      let rejected =
        reject_waiters (reject_pending stopped (record m { closing = true; pinging = false })) in
      if_ind (Still cs) m.closing (λ e. (e, h))
        (λ e. detach_if_connected-Still m.extension m.tabs (clear rejected) (
          say-Still cs (close_all m.clients) rejected (close_all-Sends Detaches m.clients)
            (refl, h)))

  finish_dispose-Still : (m : Bridge) → Still cs m → Still cs (finish_dispose m)
  unfolding finish_dispose reject_pending
  finish_dispose-Still m h =
      if_ind (Still cs) m.closing
        (λ e.
          say-Still cs (close_extension_of m.extension) m
            (close_extension_of-Sends Detaches m.extension) h)
        (λ e. h)

  step-Still : (e : Event) (m : Bridge) → Still cs m → Still cs (step e m)
  unfolding step on_extension_message on_client_message
  step-Still (extension_connects socket) m h = attach_extension_socket-Still socket m h
  step-Still (extension_sends socket raw) m h = stays m _ h
  step-Still (extension_closes socket) m h = on_extension_close-Still socket m h
  step-Still (client_connects client) m h = attach_cdp_client_socket-Still client m h
  step-Still (client_sends client raw) m h = stays m _ h
  step-Still (client_closes client) m h = on_client_close-Still cs client m h
  step-Still (job_runs n) m h = run_one-Still n m h
  step-Still (command_expires seq) m h = command_times_out-Still seq m h
  step-Still (wait_expires tab_id n) m h = waiter_times_out-Still tab_id n m h
  step-Still (ping_is_due sends) m h = ping_ticks-Still sends m h
  step-Still disposes m h = dispose-Still m h.1
  step-Still detach_ends m h = finish_dispose-Still m h

  run-Still : (es : List Event) (m : Bridge) → Still cs m → Still cs (run es m)
  unfolding run
  run-Still [] m h = h
  run-Still (e ∷ es) m h = run-Still es (step e m) (step-Still e m h)

-- From `dispose` on, no events make the bridge send the extension another command than to detach a
-- tab.
pub run-uses_disposed :
    (es : List Event) (m : Bridge) → uses (run (disposes ∷ es) m).log ≡ uses m.log
unfolding run step
run-uses_disposed es m =
    (run-Still (uses m.log) es (dispose m) (dispose-Still (uses m.log) m refl)).1
