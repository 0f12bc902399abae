-- ===== src/Relay/Safety/Invariant.antt =====
-- Commands of the relay's bridge that name known tabs and carry permitted methods, and the parts of
-- the bridge's state from which commands are made: extension-relay/relay-bridge.ts.
use agent_tab_bridge.Base.{
  ℕ, ◌≡◌, true, List, [], ◌∷◌, All, All-append, nat_eq, list_eq, option_ind,
}
use agent_tab_bridge.Base.Maps.{insert, Entries, Entries-insert}
use agent_tab_bridge.Base.Text.{Str}
use agent_tab_bridge.Relay.Policy.{page, classify_cdp_method, is_allowed}
use agent_tab_bridge.Relay.Protocol.{
  Command, cdp, attach, detach, create_tab, close_tab, activate_tab,
}
use agent_tab_bridge.Relay.State.{
  Tab, Auxiliary, Claimer, auto_attaches, among_all, attaches_to, Await, forwards, attaches,
  detaches, creates, closes, activates, ignores, rejected, Job, called, claimed, unclaimed,
  reported, unreported, Effect, command, ping, close_extension, tell, close_client, Bridge,
}
use agent_tab_bridge.Relay.Targets.{say}
use agent_tab_bridge.Relay.Claims.{enqueue, call_extension, not_connected}

-- A command names a known tab, and the method that it carries is permitted for pages.
abbrev pub Allowed : (ℕ → Type 0) → Command → Type 0
Allowed K (cdp tab_id child method params) =
    K tab_id × (is_allowed (classify_cdp_method method page) ≡ true)
Allowed K (attach tab_id) = K tab_id
Allowed K (detach tab_id) = K tab_id
Allowed K (create_tab url background focus) = Unit
Allowed K (close_tab tab_id) = K tab_id
Allowed K (activate_tab tab_id) = K tab_id

-- What leaves the bridge is no command, or a command of this kind.
abbrev pub Sends : (Command → Type 0) → Effect → Type 0
Sends P (command seq c) = P c
Sends P ping = Unit
Sends P (close_extension socket code) = Unit
Sends P (tell client output) = Unit
Sends P (close_client client code) = Unit

abbrev pub Permitted : (ℕ → Type 0) → Effect → Type 0
Permitted K = Sends (Allowed K)

abbrev pub AwaitKnown : (ℕ → Type 0) → Await → Type 0
AwaitKnown K (forwards client request) = Unit
AwaitKnown K (attaches tab_id ref) = K tab_id
AwaitKnown K (detaches client request) = Unit
AwaitKnown K (creates client request) = Unit
AwaitKnown K (closes client request) = Unit
AwaitKnown K (activates client request) = Unit
AwaitKnown K ignores = Unit

abbrev pub ClaimerKnown : (ℕ → Type 0) → Claimer → Type 0
ClaimerKnown K (auto_attaches tab_id) = Unit
ClaimerKnown K (among_all number tab_id) = Unit
ClaimerKnown K (attaches_to client tab_id request) = K tab_id

abbrev pub JobKnown : (ℕ → Type 0) → Job → Type 0
JobKnown K (called await s) = AwaitKnown K await
JobKnown K (claimed who a) = ClaimerKnown K who
JobKnown K (unclaimed who message) = Unit
JobKnown K (reported tab_id w) = Unit
JobKnown K (unreported message w) = Unit

abbrev pub TabKnown : (ℕ → Type 0) → ℕ → Tab → Type 0
TabKnown K tab_id tab = K tab_id

abbrev pub AuxiliaryKnown : (ℕ → Type 0) → Str → Auxiliary → Type 0
AuxiliaryKnown K s x = K x.tab

abbrev pub ChildKnown : (ℕ → Type 0) → Str → ℕ → Type 0
ChildKnown K s tab_id = K tab_id

abbrev pub PendingKnown : (ℕ → Type 0) → ℕ → Await → Type 0
PendingKnown K seq await = AwaitKnown K await

abbrev pub ClaimKnown : (ℕ → Type 0) → ℕ → List Claimer → Type 0
ClaimKnown K ref ws = All (ClaimerKnown K) ws

-- The parts of the state that the commands come from.
pub record SafeParts (K : ℕ → Type 0) (log : List Effect) (tabs : List (ℕ × Tab))
    (auxiliary : List (Str × Auxiliary)) (children : List (Str × ℕ)) (pending : List (ℕ × Await))
    (claims : List (ℕ × List Claimer)) (jobs : List Job) : Type 0 where
  pub safe_log : All (Permitted K) log
  pub safe_tabs : Entries (TabKnown K) tabs
  pub safe_auxiliary : Entries (AuxiliaryKnown K) auxiliary
  pub safe_children : Entries (ChildKnown K) children
  pub safe_pending : Entries (PendingKnown K) pending
  pub safe_claims : Entries (ClaimKnown K) claims
  pub safe_jobs : All (JobKnown K) jobs

abbrev pub Safe : (ℕ → Type 0) → Bridge → Type 0
Safe K m = SafeParts K m.log m.tabs m.auxiliary m.children m.pending m.claims m.jobs

module _ (K : ℕ → Type 0) where
  pub say-Safe :
      (es : List Effect) (m : Bridge) → All (Permitted K) es → Safe K m → Safe K (say es m)
  say-Safe es m p h = record {
    safe_log = All-append (Permitted K) m.log es h.safe_log p;
    safe_tabs = h.safe_tabs;
    safe_auxiliary = h.safe_auxiliary;
    safe_children = h.safe_children;
    safe_pending = h.safe_pending;
    safe_claims = h.safe_claims;
    safe_jobs = h.safe_jobs;
  }

  pub enqueue-Safe :
      (js : List Job) (m : Bridge) → All (JobKnown K) js → Safe K m → Safe K (enqueue js m)
  enqueue-Safe js m p h = record {
    safe_log = h.safe_log;
    safe_tabs = h.safe_tabs;
    safe_auxiliary = h.safe_auxiliary;
    safe_children = h.safe_children;
    safe_pending = h.safe_pending;
    safe_claims = h.safe_claims;
    safe_jobs = All-append (JobKnown K) m.jobs js h.safe_jobs p;
  }

  pub with_tabs-Safe :
      (ts : List (ℕ × Tab)) (m : Bridge)
      → Entries (TabKnown K) ts
      → Safe K m
      → Safe K (record m { tabs = ts })
  with_tabs-Safe ts m p h = record {
    safe_log = h.safe_log;
    safe_tabs = p;
    safe_auxiliary = h.safe_auxiliary;
    safe_children = h.safe_children;
    safe_pending = h.safe_pending;
    safe_claims = h.safe_claims;
    safe_jobs = h.safe_jobs;
  }

  pub with_sessions-Safe :
      (xs : List (Str × Auxiliary)) (cs : List (Str × ℕ)) (m : Bridge)
      → Entries (AuxiliaryKnown K) xs
      → Entries (ChildKnown K) cs
      → Safe K m
      → Safe K (record m { auxiliary = xs; children = cs })
  with_sessions-Safe xs cs m p q h = record {
    safe_log = h.safe_log;
    safe_tabs = h.safe_tabs;
    safe_auxiliary = p;
    safe_children = q;
    safe_pending = h.safe_pending;
    safe_claims = h.safe_claims;
    safe_jobs = h.safe_jobs;
  }

  pub with_pending-Safe :
      (ps : List (ℕ × Await)) (m : Bridge)
      → Entries (PendingKnown K) ps
      → Safe K m
      → Safe K (record m { pending = ps })
  with_pending-Safe ps m p h = record {
    safe_log = h.safe_log;
    safe_tabs = h.safe_tabs;
    safe_auxiliary = h.safe_auxiliary;
    safe_children = h.safe_children;
    safe_pending = p;
    safe_claims = h.safe_claims;
    safe_jobs = h.safe_jobs;
  }

  pub with_claims-Safe :
      (cs : List (ℕ × List Claimer)) (m : Bridge)
      → Entries (ClaimKnown K) cs
      → Safe K m
      → Safe K (record m { claims = cs })
  with_claims-Safe cs m p h = record {
    safe_log = h.safe_log;
    safe_tabs = h.safe_tabs;
    safe_auxiliary = h.safe_auxiliary;
    safe_children = h.safe_children;
    safe_pending = h.safe_pending;
    safe_claims = p;
    safe_jobs = h.safe_jobs;
  }

  pub call_extension-Safe :
      (c : Command) (await : Await) (m : Bridge)
      → Allowed K c
      → AwaitKnown K await
      → Safe K m
      → Safe K (call_extension c await m)
  unfolding call_extension
  call_extension-Safe c await m p q h =
      option_ind (Safe K) m.extension
        (λ e. enqueue-Safe (called await (rejected not_connected) ∷ []) m (q, tt) h)
        (λ x e.
          say-Safe (command m.next_seq c ∷ [])
            (record m { pending = insert m.next_seq await m.pending }) (p, tt)
            (with_pending-Safe (insert m.next_seq await m.pending) m
              (Entries-insert (PendingKnown K) m.next_seq await m.pending h.safe_pending q) h))
