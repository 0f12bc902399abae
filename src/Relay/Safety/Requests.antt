-- ===== src/Relay/Safety/Requests.antt =====
-- The requests of clients to the relay's bridge, and their sockets: extension-relay/relay-bridge.ts.
use agent_tab_bridge.Base.{
  ℕ, ◌+◌, ◌≡◌, Bool, true, false, ◌&&◌, Option, none, some, List, [], ◌∷◌, ◌==◌, if_ind, option_ind,
  if◌then◌else◌, refl, nat_eq, list_eq, option_eq,
}
use agent_tab_bridge.Base.Maps.{
  lookup, insert, delete, Entries, Entries-insert, Entries-delete, Entries-lookup,
}
use agent_tab_bridge.Base.Text.{Str, codes}
use agent_tab_bridge.Relay.Policy.{page, browser, classify_cdp_method, is_allowed}
use agent_tab_bridge.Relay.Protocol.{
  cdp, detach, create_tab, close_tab, activate_tab, resolve_create_target_params, param,
}
use agent_tab_bridge.Relay.State.{
  Request, Tab, Auxiliary, among_all, attaches_to, forwards, detaches, creates, closes, activates,
  close_client, Group, Bridge, object,
}
use agent_tab_bridge.Relay.Targets.{tab_by_session_id, tab_by_target_id, emit_detached_from_target}
use agent_tab_bridge.Relay.Claims.{
  respond, server_error, claim_and_attach_tab, owns_browser_session,
}
use agent_tab_bridge.Relay.Requests.{
  policy_error, no_session, no_target, text_param, of_other, child_session, forward,
  handle_session_scoped_request, version_of, browser_target_id, found_tab, get_target_info,
  browser_session_id, attach_to_browser_target, is_false, set_flag, open_results, claim_all, is_nil,
  attach_all, set_auto_attach, attach_to_target, auxiliary_except, detach_root, detach_session,
  detach_from_target, url_of, create_target, found_target, close_target, activate_target,
  browser_case, browser_action, BrowserCase, on_get_version, on_close_browser,
  on_set_discover_targets, on_target_info, on_targets, on_attach_browser, on_auto_attach,
  on_attach_target, on_detach_target, on_create, on_close, on_activate, on_other,
  handle_browser_scoped_request, handle_cdp_request,
}
use agent_tab_bridge.Relay.Safety.Invariant.{
  TabKnown, AuxiliaryKnown, Safe, say-Safe, with_tabs-Safe, with_sessions-Safe, call_extension-Safe,
}
use agent_tab_bridge.Relay.Safety.Sessions.{
  emit_detached_from_target-Safe, tab_by_session_id-Known, tab_by_target_id-Known,
}
use agent_tab_bridge.Relay.Safety.Claims.{
  respond-Safe, respond_error-Safe, claim_and_attach_tab-Safe, finish_group-Safe,
}

module _ (K : ℕ → Type 0) where
  forward-Safe :
      (client : ℕ) (request : Request) (s : Str) (route : Option (ℕ × Bool)) (m : Bridge)
      → is_allowed (classify_cdp_method request.method page) ≡ true
      → tab_by_session_id s m ≡ route
      → Safe K m
      → Safe K (forward client request s route m)
  forward-Safe client request s none m p e h =
      respond_error-Safe K client request (no_session s) 32001 m h
  forward-Safe client request s (some route) m p e h =
      call_extension-Safe K (cdp route.0 (child_session route.1 s) request.method request.params)
        (forwards client request) m (tab_by_session_id-Known K s m route h e, p) tt h

  handle_session_scoped_request-Safe :
      (client : ℕ) (request : Request) (s : Str) (m : Bridge)
      → Safe K m
      → Safe K (handle_session_scoped_request client request s m)
  unfolding handle_session_scoped_request
  handle_session_scoped_request-Safe client request s m h =
      if_ind (Safe K) (is_allowed (classify_cdp_method request.method page))
        (λ p.
          if_ind (Safe K) (of_other client (lookup s m.auxiliary))
            (λ e. respond_error-Safe K client request (no_session s) 32001 m h)
            (λ e. forward-Safe client request s (tab_by_session_id s m) m p refl h))
        (λ p. respond_error-Safe K client request policy_error server_error m h)

  get_target_info-Safe :
      (client : ℕ) (request : Request) (m : Bridge)
      → Safe K m
      → Safe K (get_target_info client request m)
  unfolding get_target_info
  get_target_info-Safe client request m h =
      option_ind (Safe K) (text_param (codes "targetId") request)
        (λ e. respond-Safe K client request _ m h)
        (λ target e.
          if_ind (Safe K) (target == browser_target_id) (λ d. respond-Safe K client request _ m h)
            (λ d.
              option_ind (Safe K) (found_tab target m)
                (λ c. respond_error-Safe K client request (no_target target) 32602 m h)
                (λ tab c. respond-Safe K client request _ m h)))

  claim_all-Safe :
      (number : ℕ) (ts : List (ℕ × Tab)) (m : Bridge) → Safe K m → Safe K (claim_all number ts m)
  unfolding claim_all
  claim_all-Safe number [] m h = h
  claim_all-Safe number ((id, t) ∷ ts) m h =
      claim_all-Safe number ts (claim_and_attach_tab id (among_all number id) m)
        (claim_and_attach_tab-Safe K id (among_all number id) m tt h)

  attach_all-Safe :
      (client : ℕ) (request : Request) (m : Bridge)
      → Safe K m
      → Safe K (attach_all client request m)
  unfolding attach_all
  attach_all-Safe client request m h =
      let g : Group = record {
        client = client;
        request = request;
        results = open_results m.tabs;
      } in
      if_ind (Safe K) (is_nil m.tabs) (λ e. finish_group-Safe K m.next_ref g m h)
        (λ e.
          claim_all-Safe m.next_ref m.tabs
            (record m { groups = insert m.next_ref g m.groups; next_ref = m.next_ref + 1 }) h)

  set_auto_attach-Safe :
      (client : ℕ) (request : Request) (m : Bridge)
      → Safe K m
      → Safe K (set_auto_attach client request m)
  unfolding set_auto_attach
  set_auto_attach-Safe client request m h =
      let on = if is_false (param (codes "autoAttach") request.params) then false else true in
      let flagged = record m { clients = set_flag on (lookup client m.clients) client m.clients } in
      if_ind (Safe K) on (λ e. attach_all-Safe client request flagged h)
        (λ e. respond-Safe K client request (object []) flagged h)

  attach_to_target-Safe :
      (client : ℕ) (request : Request) (m : Bridge)
      → Safe K m
      → Safe K (attach_to_target client request m)
  unfolding attach_to_target
  attach_to_target-Safe client request m h =
      option_ind (Safe K) (text_param (codes "targetId") request)
        (λ e. respond_error-Safe K client request (codes "targetId is required") 32602 m h)
        (λ target e.
          option_ind (Safe K) (tab_by_target_id target m.tabs)
            (λ d. respond_error-Safe K client request (no_target target) 32602 m h)
            (λ tab_id d.
              claim_and_attach_tab-Safe K tab_id (attaches_to client tab_id request) m
                (tab_by_target_id-Known K target m.tabs tab_id h.safe_tabs d) h))

  auxiliary_except-Known :
      (client : ℕ) (parent : Str) (xs : List (Str × Auxiliary))
      → Entries (AuxiliaryKnown K) xs
      → Entries (AuxiliaryKnown K) (auxiliary_except client parent xs)
  unfolding auxiliary_except
  auxiliary_except-Known client parent [] h = tt
  auxiliary_except-Known client parent ((s, x) ∷ xs) h =
      let ih = auxiliary_except-Known client parent xs h.1 in
      if_ind (Entries (AuxiliaryKnown K)) (x.parent == parent && x.client == client) (λ e. ih)
        (λ e. (h.0, ih))

  -- A tab is detached for the clients, and then by the extension.
  detach_root-Safe :
      (client : ℕ) (request : Request) (route : Option (ℕ × Bool)) (m : Bridge)
      → Safe K m
      → Safe K (detach_root client request route m)
  detach_root-Safe client request none m h = respond-Safe K client request (object []) m h
  detach_root-Safe client request (some route) m h =
      if_ind (Safe K) route.1 (λ e. respond-Safe K client request (object []) m h)
        (λ e.
          option_ind (Safe K) (lookup route.0 m.tabs)
            (λ d. respond-Safe K client request (object []) m h)
            (λ tab d.
              option_ind (Safe K) tab.attached (λ c. respond-Safe K client request (object []) m h)
                (λ a c.
                  let k : K route.0 =
                    Entries-lookup (TabKnown K) route.0 tab m.tabs h.safe_tabs d in
                  let ts = insert route.0 (record tab { attached = none }) m.tabs in
                  call_extension-Safe K (detach route.0) (detaches client request)
                    (emit_detached_from_target route.0 a (record m { tabs = ts })) k tt
                    (emit_detached_from_target-Safe K route.0 a (record m { tabs = ts })
                      (with_tabs-Safe K ts m
                        (Entries-insert (TabKnown K) route.0 (record tab { attached = none }) m.tabs
                          h.safe_tabs k)
                        h)))))

  detach_session-Safe :
      (client : ℕ) (request : Request) (s : Str) (m : Bridge)
      → Safe K m
      → Safe K (detach_session client request s m)
  unfolding detach_session
  detach_session-Safe client request s m h =
      if_ind (Safe K) (lookup s m.browser_sessions == some client)
        (λ e.
          respond-Safe K client request (object [])
            (record m {
              browser_sessions = delete s m.browser_sessions;
              auxiliary = auxiliary_except client s m.auxiliary;
            })
            (with_sessions-Safe K (auxiliary_except client s m.auxiliary) m.children m
              (auxiliary_except-Known client s m.auxiliary h.safe_auxiliary) h.safe_children h))
        (λ e.
          option_ind (Safe K) (lookup s m.auxiliary)
            (λ d. detach_root-Safe client request (tab_by_session_id s m) m h)
            (λ x d.
              if_ind (Safe K) (x.client == client)
                (λ c.
                  respond-Safe K client request (object [])
                    (record m { auxiliary = delete s m.auxiliary })
                    (with_sessions-Safe K (delete s m.auxiliary) m.children m
                      (Entries-delete (AuxiliaryKnown K) s m.auxiliary h.safe_auxiliary)
                      h.safe_children h))
                (λ c. respond_error-Safe K client request (no_session s) 32001 m h)))

  detach_from_target-Safe :
      (client : ℕ) (request : Request) (m : Bridge)
      → Safe K m
      → Safe K (detach_from_target client request m)
  unfolding detach_from_target
  detach_from_target-Safe client request m h =
      option_ind (Safe K) (text_param (codes "sessionId") request)
        (λ e. respond-Safe K client request (object []) m h)
        (λ s e. detach_session-Safe client request s m h)

  create_target-Safe :
      (client : ℕ) (request : Request) (m : Bridge)
      → Safe K m
      → Safe K (create_target client request m)
  unfolding create_target
  create_target-Safe client request m h =
      option_ind (Safe K)
        (resolve_create_target_params (param (codes "background") request.params)
          (param (codes "focus") request.params))
        (λ e. respond_error-Safe K client request _ server_error m h)
        (λ p e.
          call_extension-Safe K (create_tab (url_of request) p.0 p.1) (creates client request) m tt
            tt h)

  found_target-Known :
      (request : Request) (m : Bridge) (tab_id : ℕ)
      → Safe K m
      → found_target request m ≡ some tab_id
      → K tab_id
  found_target-Known request m tab_id h e = go (text_param (codes "targetId") request) e
    where
      go :
          (o : Option Str)
          → (elim o [ none ↦ none | some target ↦ tab_by_target_id target m.tabs ]) ≡ some tab_id
          → K tab_id
      go none e = cc
      go (some target) e = tab_by_target_id-Known K target m.tabs tab_id h.safe_tabs e

  close_target-Safe :
      (client : ℕ) (request : Request) (m : Bridge)
      → Safe K m
      → Safe K (close_target client request m)
  unfolding close_target
  close_target-Safe client request m h =
      option_ind (Safe K) (found_target request m)
        (λ e. respond_error-Safe K client request _ 32602 m h)
        (λ tab_id e.
          call_extension-Safe K (close_tab tab_id) (closes client request) m
            (found_target-Known request m tab_id h e) tt h)

  activate_target-Safe :
      (client : ℕ) (request : Request) (m : Bridge)
      → Safe K m
      → Safe K (activate_target client request m)
  unfolding activate_target
  activate_target-Safe client request m h =
      option_ind (Safe K) (found_target request m)
        (λ e. respond_error-Safe K client request _ 32602 m h)
        (λ tab_id e.
          call_extension-Safe K (activate_tab tab_id) (activates client request) m
            (found_target-Known request m tab_id h e) tt h)

  browser_action-Safe :
      (c : BrowserCase) (client : ℕ) (request : Request) (m : Bridge)
      → Safe K m
      → Safe K (browser_action c client request m)
  unfolding browser_action attach_to_browser_target
  browser_action-Safe on_get_version client request m h =
      respond-Safe K client request (version_of m.extension) m h
  browser_action-Safe on_close_browser client request m h =
      say-Safe K (close_client client 1000 ∷ []) (respond client request (object []) m) (tt, tt)
        (respond-Safe K client request (object []) m h)
  browser_action-Safe on_set_discover_targets client request m h =
      respond-Safe K client request (object []) m h
  browser_action-Safe on_target_info client request m h = get_target_info-Safe client request m h
  browser_action-Safe on_targets client request m h = respond-Safe K client request _ m h
  browser_action-Safe on_attach_browser client request m h =
      respond-Safe K client request _
        (record m {
          next_session_ordinal = m.next_session_ordinal + 1;
          browser_sessions =
              insert (browser_session_id m.next_session_ordinal) client m.browser_sessions;
        })
        h
  browser_action-Safe on_auto_attach client request m h = set_auto_attach-Safe client request m h
  browser_action-Safe on_attach_target client request m h = attach_to_target-Safe client request m h
  browser_action-Safe on_detach_target client request m h =
      detach_from_target-Safe client request m h
  browser_action-Safe on_create client request m h = create_target-Safe client request m h
  browser_action-Safe on_close client request m h = close_target-Safe client request m h
  browser_action-Safe on_activate client request m h = activate_target-Safe client request m h
  browser_action-Safe on_other client request m h = respond_error-Safe K client request _ 32601 m h

  handle_browser_scoped_request-Safe :
      (client : ℕ) (request : Request) (m : Bridge)
      → Safe K m
      → Safe K (handle_browser_scoped_request client request m)
  unfolding handle_browser_scoped_request
  handle_browser_scoped_request-Safe client request m h =
      if_ind (Safe K) (is_allowed (classify_cdp_method request.method browser))
        (λ e. browser_action-Safe (browser_case request.method) client request m h)
        (λ e. respond_error-Safe K client request policy_error server_error m h)

  pub handle_cdp_request-Safe :
      (client : ℕ) (request : Request) (m : Bridge)
      → Safe K m
      → Safe K (handle_cdp_request client request m)
  unfolding handle_cdp_request
  handle_cdp_request-Safe client request m h =
      option_ind (Safe K) request.session
        (λ e. handle_browser_scoped_request-Safe client request m h)
        (λ s e.
          if_ind (Safe K) (owns_browser_session client (some s) m)
            (λ d. handle_browser_scoped_request-Safe client request m h)
            (λ d. handle_session_scoped_request-Safe client request s m h))
