-- ===== src/Relay/Claims.antt =====
-- Commands to the extension, and the claim of a tab by one of them: `callExtension` and
-- `claimAndAttachTab` of extension-relay/relay-bridge.ts, with what follows a claim.
use agent_tab_bridge.Base.{
  ℕ, ◌+◌, Bool, true, false, Option, none, some, List, [], ◌∷◌, ◌++◌, ◌==◌, if◌then◌else◌, nat_eq,
  list_eq, option_eq,
}
use agent_tab_bridge.Base.Maps.{lookup, insert, delete}
use agent_tab_bridge.Base.Text.{Str, codes}
use agent_tab_bridge.Json.{Json, str}
use agent_tab_bridge.Relay.Protocol.{Command, attach, detach}
use agent_tab_bridge.Relay.State.{
  Attached, Tab, Request, Claimer, auto_attaches, among_all, attaches_to, Await, attaches, ignores,
  rejected, Job, called, claimed, unclaimed, command, tell, answer, failure, Group, Bridge, decimal,
  target_id_for_tab, object,
}
use agent_tab_bridge.Relay.Targets.{say, announce_attached_tab, one_client, auto_attaching}

abbrev pub enqueue : List Job → Bridge → Bridge
enqueue js m = record m { jobs = m.jobs ++ js }

-- `respond` of a result that is present, and `respondError`.
abbrev pub respond : ℕ → Request → Json → Bridge → Bridge
respond client request result m = say (tell client (answer request result) ∷ []) m

abbrev pub respond_error : ℕ → Request → Str → ℕ → Bridge → Bridge
respond_error client request message code m =
    say (tell client (failure request.id request.session message code) ∷ []) m

-- Error codes are negative in the source, and written here without their sign.
abbrev pub server_error : ℕ
server_error = 32000

abbrev pub not_connected : Str
not_connected = codes "Agent Tab Bridge extension is not connected to the relay"

-- `callExtension`. Without an extension the promise is rejected at once.
unfoldable pub call_extension : Command → Await → Bridge → Bridge
call_extension c await m = elim m.extension [
  | none ↦ record m {
    next_seq = m.next_seq + 1;
    jobs = m.jobs ++ called await (rejected not_connected) ∷ [];
  }
  | some e ↦ record m {
    next_seq = m.next_seq + 1;
    pending = insert m.next_seq await m.pending;
    log = m.log ++ command m.next_seq c ∷ [];
  }
]

abbrev pub tab_text : ℕ → Str → Str
tab_text tab_id rest = codes "tab " ++ decimal tab_id ++ codes " " ++ rest

-- A claim that has to attach the tab, or waits for one that does.
unfoldable pub start_claim : ℕ → Tab → Claimer → Bridge → Bridge
start_claim tab_id tab who m = elim (lookup tab.ref m.claims) [
  | some others ↦ record m { claims = insert tab.ref (others ++ who ∷ []) m.claims }
  | none ↦
      call_extension (attach tab_id) (attaches tab_id tab.ref)
        (record m { claims = insert tab.ref (who ∷ []) m.claims })
]

-- `claimAndAttachTab`, up to its first wait.
unfoldable pub claim_and_attach_tab : ℕ → Claimer → Bridge → Bridge
unfolding start_claim
claim_and_attach_tab tab_id who m = elim (lookup tab_id m.tabs) [
  | none ↦
      enqueue
        (unclaimed who (tab_text tab_id (codes "is not available to this approved session")) ∷ []) m
  | some tab ↦ elim tab.attached [
    | some a ↦ enqueue (claimed who a ∷ []) m
    | none ↦ start_claim tab_id tab who m
  ]
]

unfoldable pub all_claimed : List Claimer → Attached → List Job
all_claimed [] a = []
all_claimed (w ∷ ws) a = claimed w a ∷ all_claimed ws a

unfoldable pub all_unclaimed : List Claimer → Str → List Job
all_unclaimed [] message = []
all_unclaimed (w ∷ ws) message = unclaimed w message ∷ all_unclaimed ws message

abbrev pub claimers : ℕ → Bridge → List Claimer
claimers ref m = elim (lookup ref m.claims) [ none ↦ [] | some ws ↦ ws ]

-- The promise of a claim ends for all that wait for it, and may be made anew.
unfoldable pub settle_claimed : ℕ → Attached → Bridge → Bridge
unfolding all_claimed
settle_claimed ref a m = record m {
  claims = delete ref m.claims;
  jobs = m.jobs ++ all_claimed (claimers ref m) a;
}

unfoldable pub settle_unclaimed : ℕ → Str → Bridge → Bridge
unfolding all_unclaimed
settle_unclaimed ref message m = record m {
  claims = delete ref m.claims;
  jobs = m.jobs ++ all_unclaimed (claimers ref m) message;
}

abbrev pub session_id_for : ℕ → ℕ → Str
session_id_for tab_id ordinal =
    codes "agent-tab-bridge-tab-" ++ decimal tab_id ++ codes "-" ++ decimal ordinal

abbrev pub same_state : ℕ → Option Tab → Bool
same_state ref none = false
same_state ref (some tab) = tab.ref == ref

abbrev pub attach_state : ℕ → Attached → Option Tab → Bridge → Bridge
attach_state tab_id a none m = m
attach_state tab_id a (some tab) m = record m {
  tabs = insert tab_id (record tab { attached = some a }) m.tabs;
}

-- The tab has been attached: it counts only if its state is the one that was claimed.
unfoldable pub finish_attach : ℕ → ℕ → Bridge → Bridge
unfolding settle_claimed settle_unclaimed
finish_attach tab_id ref m =
    let a : Attached = record {
      target_id = target_id_for_tab tab_id;
      session_id = session_id_for tab_id m.next_session_ordinal;
    } in
    let counted = record m { next_session_ordinal = m.next_session_ordinal + 1 } in
    if same_state ref (lookup tab_id m.tabs)
    then settle_claimed ref a (attach_state tab_id a (lookup tab_id m.tabs) counted)
    else settle_unclaimed ref (tab_text tab_id (codes "closed during attach"))
        (call_extension (detach tab_id) ignores counted)

-- The ends of the promises that `Target.setAutoAttach` waits for.
abbrev pub record_result :
    ℕ → Option Attached → List (ℕ × Option (Option Attached)) → List (ℕ × Option (Option Attached))
record_result tab_id r results = insert tab_id (some r) results

unfoldable pub all_settled : List (ℕ × Option (Option Attached)) → Bool
all_settled [] = true
all_settled ((tab, none) ∷ rs) = false
all_settled ((tab, some r) ∷ rs) = all_settled rs

abbrev pub announce_result : ℕ → ℕ → Option (Option Attached) → Bridge → Bridge
announce_result client tab_id (some (some a)) m =
    announce_attached_tab tab_id a (one_client client) m
announce_result client tab_id _ m = m

unfoldable pub announce_results : ℕ → List (ℕ × Option (Option Attached)) → Bridge → Bridge
announce_results client [] m = m
announce_results client ((tab, r) ∷ rs) m =
    announce_results client rs (announce_result client tab r m)

-- All tabs have been tried: those that are attached are announced, and the request is answered.
unfoldable pub finish_group : ℕ → Group → Bridge → Bridge
unfolding announce_results
finish_group number g m =
    respond g.client g.request (object [])
      (announce_results g.client g.results (record m { groups = delete number m.groups }))

unfoldable pub settle_in_group : ℕ → ℕ → Option Attached → Bridge → Bridge
unfolding all_settled finish_group
settle_in_group number tab_id r m = elim (lookup number m.groups) [
  | none ↦ m
  | some g ↦
      let g' = record g { results = record_result tab_id r g.results } in
      if all_settled g'.results
      then finish_group number g' m
      else record m { groups = insert number g' m.groups }
]

abbrev pub owns_browser_session : ℕ → Option Str → Bridge → Bool
owns_browser_session client none m = false
owns_browser_session client (some s) m = lookup s m.browser_sessions == some client

abbrev pub or_empty : Option Str → Str
or_empty none = []
or_empty (some s) = s

-- A further session of a tab, for a session of the browser.
unfoldable pub add_auxiliary : ℕ → ℕ → Request → Bridge → Bridge
add_auxiliary client tab_id request m =
    let s = session_id_for tab_id m.next_session_ordinal in
    respond client request (object ((codes "sessionId", str s) ∷ [])) (record m {
      next_session_ordinal = m.next_session_ordinal + 1;
      auxiliary =
          insert s (record { tab = tab_id; parent = or_empty request.session; client = client })
            m.auxiliary;
    })

-- `Target.attachToTarget` after its claim.
unfoldable pub finish_attach_to : ℕ → ℕ → Request → Attached → Bridge → Bridge
unfolding add_auxiliary
finish_attach_to client tab_id request a m =
    if owns_browser_session client request.session m
    then add_auxiliary client tab_id request m
    else respond client request (object ((codes "sessionId", str a.session_id) ∷ []))
        (announce_attached_tab tab_id a (one_client client) m)

-- What follows a claim that has succeeded, and one that has not.
unfoldable pub on_claimed : Claimer → Attached → Bridge → Bridge
unfolding settle_in_group finish_attach_to
on_claimed (auto_attaches tab_id) a m = announce_attached_tab tab_id a auto_attaching m
on_claimed (among_all number tab_id) a m = settle_in_group number tab_id (some a) m
on_claimed (attaches_to client tab_id request) a m = finish_attach_to client tab_id request a m

unfoldable pub on_unclaimed : Claimer → Str → Bridge → Bridge
unfolding settle_in_group
on_unclaimed (auto_attaches tab_id) message m = m
on_unclaimed (among_all number tab_id) message m = settle_in_group number tab_id none m
on_unclaimed (attaches_to client tab_id request) message m =
    respond_error client request message server_error m
