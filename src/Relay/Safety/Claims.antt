-- ===== src/Relay/Safety/Claims.antt =====
-- Commands to the extension and claims of tabs by the relay's bridge: extension-relay/
-- relay-bridge.ts.
use agent_tab_bridge.Base.{
  ℕ, ◌+◌, Option, none, some, List, [], ◌∷◌, ◌++◌, All, All-append, nat_eq, list_eq, if_ind,
  option_ind,
}
use agent_tab_bridge.Base.Maps.{
  lookup, insert, delete, Entries-insert, Entries-delete, Entries-lookup,
}
use agent_tab_bridge.Base.Text.{Str}
use agent_tab_bridge.Json.{Json}
use agent_tab_bridge.Relay.Protocol.{attach, detach}
use agent_tab_bridge.Relay.State.{
  Attached, Tab, Auxiliary, Request, Claimer, auto_attaches, among_all, attaches_to, attaches,
  ignores, claimed, tell, answer, failure, Group, Bridge, target_id_for_tab, object,
}
use agent_tab_bridge.Relay.Targets.{announce_attached_tab, one_client, auto_attaching}
use agent_tab_bridge.Relay.Claims.{
  respond, respond_error, server_error, call_extension, start_claim, claim_and_attach_tab,
  all_claimed, all_unclaimed, claimers, settle_claimed, settle_unclaimed, session_id_for,
  same_state, attach_state, finish_attach, record_result, all_settled, announce_results,
  finish_group, settle_in_group, owns_browser_session, or_empty, add_auxiliary, finish_attach_to,
  on_claimed, on_unclaimed,
}
use agent_tab_bridge.Relay.Safety.Invariant.{
  TabKnown, AuxiliaryKnown, ClaimerKnown, ClaimKnown, JobKnown, Safe, say-Safe, enqueue-Safe,
  with_tabs-Safe, with_sessions-Safe, with_claims-Safe, call_extension-Safe,
}
use agent_tab_bridge.Relay.Safety.Sessions.{announce_attached_tab-Safe}

module _ (K : ℕ → Type 0) where
  pub respond-Safe :
      (client : ℕ) (request : Request) (result : Json) (m : Bridge)
      → Safe K m
      → Safe K (respond client request result m)
  respond-Safe client request result m h =
      say-Safe K (tell client (answer request result) ∷ []) m (tt, tt) h

  pub respond_error-Safe :
      (client : ℕ) (request : Request) (message : Str) (code : ℕ) (m : Bridge)
      → Safe K m
      → Safe K (respond_error client request message code m)
  respond_error-Safe client request message code m h =
      say-Safe K (tell client (failure request.id request.session message code) ∷ []) m (tt, tt) h

  start_claim-Safe :
      (tab_id : ℕ) (tab : Tab) (who : Claimer) (m : Bridge)
      → K tab_id
      → ClaimerKnown K who
      → Safe K m
      → Safe K (start_claim tab_id tab who m)
  unfolding start_claim
  start_claim-Safe tab_id tab who m k w h =
      option_ind (Safe K) (lookup tab.ref m.claims)
        (λ e.
          call_extension-Safe K (attach tab_id) (attaches tab_id tab.ref)
            (record m { claims = insert tab.ref (who ∷ []) m.claims }) k k
            (with_claims-Safe K _ m
              (Entries-insert (ClaimKnown K) tab.ref (who ∷ []) m.claims h.safe_claims (w, tt)) h))
        (λ others e.
          with_claims-Safe K _ m
            (Entries-insert (ClaimKnown K) tab.ref (others ++ who ∷ []) m.claims h.safe_claims (
              All-append (ClaimerKnown K) others (who ∷ [])
                (Entries-lookup (ClaimKnown K) tab.ref others m.claims h.safe_claims e) (w, tt)))
            h)

  pub claim_and_attach_tab-Safe :
      (tab_id : ℕ) (who : Claimer) (m : Bridge)
      → ClaimerKnown K who
      → Safe K m
      → Safe K (claim_and_attach_tab tab_id who m)
  unfolding claim_and_attach_tab
  claim_and_attach_tab-Safe tab_id who m w h =
      option_ind (Safe K) (lookup tab_id m.tabs) (λ e. enqueue-Safe K _ m (tt, tt) h)
        (λ tab e.
          option_ind (Safe K) tab.attached
            (λ d.
              start_claim-Safe tab_id tab who m
                (Entries-lookup (TabKnown K) tab_id tab m.tabs h.safe_tabs e) w h)
            (λ a d. enqueue-Safe K (claimed who a ∷ []) m (w, tt) h))

  all_claimed-Known :
      (ws : List Claimer) (a : Attached)
      → All (ClaimerKnown K) ws
      → All (JobKnown K) (all_claimed ws a)
  unfolding all_claimed
  all_claimed-Known [] a h = tt
  all_claimed-Known (w ∷ ws) a h = (h.0, all_claimed-Known ws a h.1)

  all_unclaimed-Known :
      (ws : List Claimer) (message : Str) → All (JobKnown K) (all_unclaimed ws message)
  unfolding all_unclaimed
  all_unclaimed-Known [] message = tt
  all_unclaimed-Known (w ∷ ws) message = (tt, all_unclaimed-Known ws message)

  claimers-Known : (ref : ℕ) (m : Bridge) → Safe K m → All (ClaimerKnown K) (claimers ref m)
  claimers-Known ref m h =
      option_ind (All (ClaimerKnown K)) (lookup ref m.claims) (λ e. tt)
        (λ ws e. Entries-lookup (ClaimKnown K) ref ws m.claims h.safe_claims e)

  settle_claimed-Safe :
      (ref : ℕ) (a : Attached) (m : Bridge) → Safe K m → Safe K (settle_claimed ref a m)
  unfolding settle_claimed
  settle_claimed-Safe ref a m h =
      enqueue-Safe K (all_claimed (claimers ref m) a) (record m { claims = delete ref m.claims })
        (all_claimed-Known (claimers ref m) a (claimers-Known ref m h))
        (with_claims-Safe K _ m (Entries-delete (ClaimKnown K) ref m.claims h.safe_claims) h)

  pub settle_unclaimed-Safe :
      (ref : ℕ) (message : Str) (m : Bridge) → Safe K m → Safe K (settle_unclaimed ref message m)
  unfolding settle_unclaimed
  settle_unclaimed-Safe ref message m h =
      enqueue-Safe K (all_unclaimed (claimers ref m) message)
        (record m { claims = delete ref m.claims }) (all_unclaimed-Known (claimers ref m) message)
        (with_claims-Safe K _ m (Entries-delete (ClaimKnown K) ref m.claims h.safe_claims) h)

  attach_state-Safe :
      (tab_id : ℕ) (a : Attached) (o : Option Tab) (m : Bridge)
      → K tab_id
      → Safe K m
      → Safe K (attach_state tab_id a o m)
  attach_state-Safe tab_id a none m k h = h
  attach_state-Safe tab_id a (some tab) m k h =
      with_tabs-Safe K _ m (Entries-insert (TabKnown K) tab_id _ m.tabs h.safe_tabs k) h

  pub finish_attach-Safe :
      (tab_id ref : ℕ) (m : Bridge) → K tab_id → Safe K m → Safe K (finish_attach tab_id ref m)
  unfolding finish_attach
  finish_attach-Safe tab_id ref m k h =
      let counted = record m { next_session_ordinal = m.next_session_ordinal + 1 } in
      let a : Attached = record {
        target_id = target_id_for_tab tab_id;
        session_id = session_id_for tab_id m.next_session_ordinal;
      } in
      if_ind (Safe K) (same_state ref (lookup tab_id m.tabs))
        (λ e.
          settle_claimed-Safe ref a (attach_state tab_id a (lookup tab_id m.tabs) counted)
            (attach_state-Safe tab_id a (lookup tab_id m.tabs) counted k h))
        (λ e.
          settle_unclaimed-Safe ref _ (call_extension (detach tab_id) ignores counted)
            (call_extension-Safe K (detach tab_id) ignores counted k tt h))

  announce_results-Safe :
      (client : ℕ) (rs : List (ℕ × Option (Option Attached))) (m : Bridge)
      → Safe K m
      → Safe K (announce_results client rs m)
  unfolding announce_results
  announce_results-Safe client [] m h = h
  announce_results-Safe client ((tab, none) ∷ rs) m h = announce_results-Safe client rs m h
  announce_results-Safe client ((tab, some none) ∷ rs) m h = announce_results-Safe client rs m h
  announce_results-Safe client ((tab, some (some a)) ∷ rs) m h =
      announce_results-Safe client rs (announce_attached_tab tab a (one_client client) m)
        (announce_attached_tab-Safe K tab a (one_client client) m h)

  pub finish_group-Safe :
      (number : ℕ) (g : Group) (m : Bridge) → Safe K m → Safe K (finish_group number g m)
  unfolding finish_group
  finish_group-Safe number g m h =
      respond-Safe g.client g.request (object [])
        (announce_results g.client g.results (record m { groups = delete number m.groups }))
        (announce_results-Safe g.client g.results (record m { groups = delete number m.groups }) h)

  settle_in_group-Safe :
      (number tab_id : ℕ) (r : Option Attached) (m : Bridge)
      → Safe K m
      → Safe K (settle_in_group number tab_id r m)
  unfolding settle_in_group
  settle_in_group-Safe number tab_id r m h =
      option_ind (Safe K) (lookup number m.groups) (λ e. h)
        (λ g e.
          if_ind (Safe K) (all_settled (record_result tab_id r g.results))
            (λ d.
              finish_group-Safe number (record g { results = record_result tab_id r g.results }) m
                h)
            (λ d. h))

  add_auxiliary-Safe :
      (client tab_id : ℕ) (request : Request) (m : Bridge)
      → K tab_id
      → Safe K m
      → Safe K (add_auxiliary client tab_id request m)
  unfolding add_auxiliary
  add_auxiliary-Safe client tab_id request m k h =
      let s = session_id_for tab_id m.next_session_ordinal in
      let x : Auxiliary = record {
        tab = tab_id;
        parent = or_empty request.session;
        client = client;
      } in
      let counted = record m { next_session_ordinal = m.next_session_ordinal + 1 } in
      respond-Safe client request _ (record counted { auxiliary = insert s x m.auxiliary })
        (with_sessions-Safe K (insert s x m.auxiliary) m.children counted
          (Entries-insert (AuxiliaryKnown K) s x m.auxiliary h.safe_auxiliary k) h.safe_children h)

  pub on_claimed-Safe :
      (who : Claimer) (a : Attached) (m : Bridge)
      → ClaimerKnown K who
      → Safe K m
      → Safe K (on_claimed who a m)
  unfolding on_claimed finish_attach_to
  on_claimed-Safe (auto_attaches tab_id) a m w h =
      announce_attached_tab-Safe K tab_id a auto_attaching m h
  on_claimed-Safe (among_all number tab_id) a m w h =
      settle_in_group-Safe number tab_id (some a) m h
  on_claimed-Safe (attaches_to client tab_id request) a m w h =
      if_ind (Safe K) (owns_browser_session client request.session m)
        (λ e. add_auxiliary-Safe client tab_id request m w h)
        (λ e.
          respond-Safe client request _ (announce_attached_tab tab_id a (one_client client) m)
            (announce_attached_tab-Safe K tab_id a (one_client client) m h))

  pub on_unclaimed-Safe :
      (who : Claimer) (message : Str) (m : Bridge) → Safe K m → Safe K (on_unclaimed who message m)
  unfolding on_unclaimed
  on_unclaimed-Safe (auto_attaches tab_id) message m h = h
  on_unclaimed-Safe (among_all number tab_id) message m h =
      settle_in_group-Safe number tab_id none m h
  on_unclaimed-Safe (attaches_to client tab_id request) message m h =
      respond_error-Safe client request message server_error m h
