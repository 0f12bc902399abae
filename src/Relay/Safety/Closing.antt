-- ===== src/Relay/Safety/Closing.antt =====
-- The relay's bridge of extension-relay/relay-bridge.ts once `dispose` has begun.
use agent_tab_bridge.Base.{
  ℕ, ◌+◌, ◌≡◌, refl, ap, ◌∙◌, Bool, true, false, Option, none, some, List, [], ◌∷◌, ◌++◌, All,
  if_ind, if◌then◌else◌, option_ind, nat_eq, list_eq,
}
use agent_tab_bridge.Base.Maps.{lookup, insert, delete}
use agent_tab_bridge.Base.Text.{Str, codes}
use agent_tab_bridge.Json.{Json}
use agent_tab_bridge.Relay.Protocol.{
  Command, cdp, attach, detach, create_tab, close_tab, activate_tab,
}
use agent_tab_bridge.Relay.State.{
  Request, Tab, Attached, Claimer, auto_attaches, among_all, attaches_to, Await, forwards, attaches,
  detaches, creates, closes, activates, ignores, resolved, rejected, Job, called, claimed,
  unclaimed, reported, unreported, Effect, command, ping, close_extension, tell, close_client,
  answer, failure, Bridge, object, target_id_for_tab,
}
use agent_tab_bridge.Relay.Targets.{
  say, announce_attached_tab, one_client, auto_attaching, detached_effects, auxiliary_effects,
  emit_detached_from_target,
}
use agent_tab_bridge.Relay.Claims.{
  respond, respond_error, server_error, call_extension, settle_claimed, settle_unclaimed,
  same_state, attach_state, session_id_for, finish_attach, announce_results, finish_group,
  record_result, all_settled, settle_in_group, owns_browser_session, add_auxiliary,
  finish_attach_to, on_claimed, on_unclaimed,
}
use agent_tab_bridge.Relay.Extension.{
  reject_pending, reject_waiters, emit_if_attached, emit_all_detached, handle_extension_gone,
}
use agent_tab_bridge.Relay.Jobs.{
  created_tab_id, or_object, success, wait_for_reported_tab, finish_create, on_result, on_failure,
  run_job,
}
use agent_tab_bridge.Relay.Clients.{
  any_connected, detach_idle_tab, detach_all, detach_all_when_idle, sessions_of_others,
  auxiliary_of_others, disconnect, on_client_close,
}
use agent_tab_bridge.Relay.Safety.Invariant.{Sends}
use agent_tab_bridge.Relay.Safety.Sessions.{
  announced_effects-Sends, detached_effects-Sends, auxiliary_effects-Sends,
}

abbrev pub is_detach : Command → Bool
is_detach (detach tab_id) = true
is_detach (cdp tab_id child method params) = false
is_detach (attach tab_id) = false
is_detach (create_tab url background focus) = false
is_detach (close_tab tab_id) = false
is_detach (activate_tab tab_id) = false

-- The commands that use the browser, in order: all but those that detach a tab.
unfoldable pub uses : List Effect → List Command
uses [] = []
uses (command seq c ∷ es) = let rest = uses es in if is_detach c then rest else c ∷ rest
uses (ping ∷ es) = uses es
uses (close_extension socket code ∷ es) = uses es
uses (tell client output ∷ es) = uses es
uses (close_client client code ∷ es) = uses es

abbrev pub Detaches : Command → Type 0
Detaches c = is_detach c ≡ true

uses-append : (xs es : List Effect) → All (Sends Detaches) es → uses (xs ++ es) ≡ uses xs
unfolding uses
uses-append [] [] h = refl
uses-append [] (command seq c ∷ es) h = rw (h.0, uses-append [] es h.1)
uses-append [] (ping ∷ es) h = uses-append [] es h.1
uses-append [] (close_extension socket code ∷ es) h = uses-append [] es h.1
uses-append [] (tell client output ∷ es) h = uses-append [] es h.1
uses-append [] (close_client client code ∷ es) h = uses-append [] es h.1
uses-append (command seq c ∷ xs) es h =
    ap (λ rest. if is_detach c then rest else c ∷ rest) (uses-append xs es h)
uses-append (ping ∷ xs) es h = uses-append xs es h
uses-append (close_extension socket code ∷ xs) es h = uses-append xs es h
uses-append (tell client output ∷ xs) es h = uses-append xs es h
uses-append (close_client client code ∷ xs) es h = uses-append xs es h

-- The bridge is closing, and has used the browser by these commands only.
abbrev pub Still : List Command → Bridge → Type 0
Still cs m = (m.closing ≡ true) × (uses m.log ≡ cs)

module _ (cs : List Command) where
  pub say-Still :
      (es : List Effect) (m : Bridge) → All (Sends Detaches) es → Still cs m → Still cs (say es m)
  say-Still es m p h = (h.0, uses-append m.log es p ∙ h.1)

  respond-Still :
      (client : ℕ) (request : Request) (result : Json) (m : Bridge)
      → Still cs m
      → Still cs (respond client request result m)
  respond-Still client request result m h =
      say-Still (tell client (answer request result) ∷ []) m (tt, tt) h

  respond_error-Still :
      (client : ℕ) (request : Request) (message : Str) (code : ℕ) (m : Bridge)
      → Still cs m
      → Still cs (respond_error client request message code m)
  respond_error-Still client request message code m h =
      say-Still (tell client (failure request.id request.session message code) ∷ []) m (tt, tt) h

  pub call_detach-Still :
      (tab_id : ℕ) (await : Await) (m : Bridge)
      → Still cs m
      → Still cs (call_extension (detach tab_id) await m)
  unfolding call_extension
  call_detach-Still tab_id await m h =
      option_ind (Still cs) m.extension (λ e. h)
        (λ x e. say-Still (command m.next_seq (detach tab_id) ∷ []) m (refl, tt) h)

  announce_attached_tab-Still :
      (tab_id : ℕ) (a : Attached) (client : ℕ) (m : Bridge)
      → Still cs m
      → Still cs (announce_attached_tab tab_id a (one_client client) m)
  unfolding announce_attached_tab
  announce_attached_tab-Still tab_id a client m h =
      option_ind (Still cs) (lookup tab_id m.tabs) (λ e. h)
        (λ tab e.
          say-Still _ m
            (announced_effects-Sends Detaches (one_client client) a.session_id _ m.clients) h)

  announce_to_all-Still :
      (tab_id : ℕ) (a : Attached) (m : Bridge)
      → Still cs m
      → Still cs (announce_attached_tab tab_id a auto_attaching m)
  unfolding announce_attached_tab
  announce_to_all-Still tab_id a m h =
      option_ind (Still cs) (lookup tab_id m.tabs) (λ e. h)
        (λ tab e.
          say-Still _ m (announced_effects-Sends Detaches auto_attaching a.session_id _ m.clients)
            h)

  emit_detached_from_target-Still :
      (tab_id : ℕ) (a : Attached) (m : Bridge)
      → Still cs m
      → Still cs (emit_detached_from_target tab_id a m)
  unfolding emit_detached_from_target
  emit_detached_from_target-Still tab_id a m h =
      let detached = detached_effects a.session_id a.target_id m.clients in
      say-Still (auxiliary_effects tab_id a.target_id m.auxiliary) (say detached m)
        (auxiliary_effects-Sends Detaches tab_id a.target_id m.auxiliary)
        (say-Still detached m (detached_effects-Sends Detaches a.session_id a.target_id m.clients)
          h)

  attach_state-Still :
      (tab_id : ℕ) (a : Attached) (o : Option Tab) (m : Bridge)
      → Still cs m
      → Still cs (attach_state tab_id a o m)
  attach_state-Still tab_id a none m h = h
  attach_state-Still tab_id a (some tab) m h = h

  finish_attach-Still :
      (tab_id ref : ℕ) (m : Bridge) → Still cs m → Still cs (finish_attach tab_id ref m)
  unfolding finish_attach settle_claimed settle_unclaimed
  finish_attach-Still tab_id ref m h =
      let counted = record m { next_session_ordinal = m.next_session_ordinal + 1 } in
      let a : Attached = record {
        target_id = target_id_for_tab tab_id;
        session_id = session_id_for tab_id m.next_session_ordinal;
      } in
      if_ind (Still cs) (same_state ref (lookup tab_id m.tabs))
        (λ e. attach_state-Still tab_id a (lookup tab_id m.tabs) counted h)
        (λ e. call_detach-Still tab_id ignores counted h)

  announce_results-Still :
      (client : ℕ) (rs : List (ℕ × Option (Option Attached))) (m : Bridge)
      → Still cs m
      → Still cs (announce_results client rs m)
  unfolding announce_results
  announce_results-Still client [] m h = h
  announce_results-Still client ((tab, none) ∷ rs) m h = announce_results-Still client rs m h
  announce_results-Still client ((tab, some none) ∷ rs) m h = announce_results-Still client rs m h
  announce_results-Still client ((tab, some (some a)) ∷ rs) m h =
      announce_results-Still client rs (announce_attached_tab tab a (one_client client) m)
        (announce_attached_tab-Still tab a client m h)

  settle_in_group-Still :
      (number tab_id : ℕ) (r : Option Attached) (m : Bridge)
      → Still cs m
      → Still cs (settle_in_group number tab_id r m)
  unfolding settle_in_group finish_group
  settle_in_group-Still number tab_id r m h =
      option_ind (Still cs) (lookup number m.groups) (λ e. h)
        (λ g e.
          let results = record_result tab_id r g.results in
          if_ind (Still cs) (all_settled results)
            (λ d.
              respond-Still g.client g.request (object [])
                (announce_results g.client results (record m { groups = delete number m.groups }))
                (announce_results-Still g.client results
                  (record m { groups = delete number m.groups }) h))
            (λ d. h))

  on_claimed-Still :
      (who : Claimer) (a : Attached) (m : Bridge) → Still cs m → Still cs (on_claimed who a m)
  unfolding on_claimed finish_attach_to add_auxiliary
  on_claimed-Still (auto_attaches tab_id) a m h = announce_to_all-Still tab_id a m h
  on_claimed-Still (among_all number tab_id) a m h =
      settle_in_group-Still number tab_id (some a) m h
  on_claimed-Still (attaches_to client tab_id request) a m h =
      if_ind (Still cs) (owns_browser_session client request.session m)
        (λ e. say-Still (tell client _ ∷ []) m (tt, tt) h)
        (λ e.
          say-Still (tell client _ ∷ []) (announce_attached_tab tab_id a (one_client client) m)
            (tt, tt) (announce_attached_tab-Still tab_id a client m h))

  on_unclaimed-Still :
      (who : Claimer) (message : Str) (m : Bridge)
      → Still cs m
      → Still cs (on_unclaimed who message m)
  unfolding on_unclaimed
  on_unclaimed-Still (auto_attaches tab_id) message m h = h
  on_unclaimed-Still (among_all number tab_id) message m h =
      settle_in_group-Still number tab_id none m h
  on_unclaimed-Still (attaches_to client tab_id request) message m h =
      respond_error-Still client request message server_error m h

  on_result-Still :
      (await : Await) (value : Json) (m : Bridge) → Still cs m → Still cs (on_result await value m)
  unfolding on_result finish_create wait_for_reported_tab
  on_result-Still (forwards client request) value m h =
      respond-Still client request (or_object value) m h
  on_result-Still (attaches tab_id ref) value m h = finish_attach-Still tab_id ref m h
  on_result-Still (detaches client request) value m h = respond-Still client request (object []) m h
  on_result-Still (creates client request) value m h = go (created_tab_id value)
    where
      go : (o : Option ℕ) → Still cs (finish_create client request o m)
      go none = say-Still (tell client _ ∷ []) m (tt, tt) h
      go (some tab_id) = option_ind (Still cs) (lookup tab_id m.tabs) (λ e. h) (λ tab e. h)
  on_result-Still (closes client request) value m h = respond-Still client request success m h
  on_result-Still (activates client request) value m h =
      respond-Still client request (object []) m h
  on_result-Still ignores value m h = h

  on_failure-Still :
      (await : Await) (message : Str) (m : Bridge)
      → Still cs m
      → Still cs (on_failure await message m)
  unfolding on_failure settle_unclaimed
  on_failure-Still (forwards client request) message m h =
      respond_error-Still client request message server_error m h
  on_failure-Still (attaches tab_id ref) message m h = h
  on_failure-Still (detaches client request) message m h =
      respond-Still client request (object []) m h
  on_failure-Still (creates client request) message m h =
      respond_error-Still client request message server_error m h
  on_failure-Still (closes client request) message m h =
      respond_error-Still client request message server_error m h
  on_failure-Still (activates client request) message m h =
      respond_error-Still client request message server_error m h
  on_failure-Still ignores message m h = h

  pub run_job-Still : (j : Job) (m : Bridge) → Still cs m → Still cs (run_job j m)
  unfolding run_job
  run_job-Still (called await (resolved value)) m h = on_result-Still await value m h
  run_job-Still (called await (rejected message)) m h = on_failure-Still await message m h
  run_job-Still (claimed who a) m h = on_claimed-Still who a m h
  run_job-Still (unclaimed who message) m h = on_unclaimed-Still who message m h
  run_job-Still (reported tab_id w) m h = say-Still (tell w.client _ ∷ []) m (tt, tt) h
  run_job-Still (unreported message w) m h =
      respond_error-Still w.client w.request message server_error m h

  pub emit_all_detached-Still :
      (ts : List (ℕ × Tab)) (m : Bridge) → Still cs m → Still cs (emit_all_detached ts m)
  unfolding emit_all_detached
  emit_all_detached-Still [] m h = h
  emit_all_detached-Still ((tab_id, tab) ∷ ts) m h =
      emit_all_detached-Still ts (emit_if_attached tab_id tab m) (
        option_ind (Still cs) tab.attached (λ e. h)
          (λ a e. emit_detached_from_target-Still tab_id a m h))

  pub handle_extension_gone-Still : (m : Bridge) → Still cs m → Still cs (handle_extension_gone m)
  unfolding handle_extension_gone reject_pending reject_waiters
  handle_extension_gone-Still m h =
      let gone = record m { extension = none; pinging = false } in
      emit_all_detached-Still m.tabs
        (reject_waiters (reject_pending (codes "extension disconnected") gone)) h

  detach_all-Still : (ts : List (ℕ × Tab)) (m : Bridge) → Still cs m → Still cs (detach_all ts m)
  unfolding detach_all
  detach_all-Still [] m h = h
  detach_all-Still ((tab_id, tab) ∷ ts) m h = detach_all-Still ts (detach_idle_tab tab_id tab m) (
      option_ind (Still cs) tab.attached (λ e. h)
        (λ a e.
          let freed = record m { tabs = insert tab_id (record tab { attached = none }) m.tabs } in
          call_detach-Still tab_id ignores (emit_detached_from_target tab_id a freed)
            (emit_detached_from_target-Still tab_id a freed h)))

  pub on_client_close-Still :
      (client : ℕ) (m : Bridge) → Still cs m → Still cs (on_client_close client m)
  unfolding on_client_close detach_all_when_idle
  on_client_close-Still client m h =
      option_ind (Still cs) (lookup client m.clients) (λ e. h)
        (λ c e.
          let left = record m {
            clients = disconnect client (some c) m.clients;
            browser_sessions = sessions_of_others client m.browser_sessions;
            auxiliary = auxiliary_of_others client m.auxiliary;
          } in
          if_ind (Still cs) (any_connected left.clients) (λ d. h)
            (λ d.
              option_ind (Still cs) m.extension (λ b. h) (λ x b. detach_all-Still m.tabs left h)))
