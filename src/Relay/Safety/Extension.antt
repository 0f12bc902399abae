-- ===== src/Relay/Safety/Extension.antt =====
-- The extension's side of the relay's bridge: extension-relay/relay-bridge.ts.
use agent_tab_bridge.Base.{
  ℕ, ◌+◌, Bool, true, false, ◌||◌, Option, none, some, List, [], ◌∷◌, All, All-append, nat_eq,
  list_eq, contains, if_ind, if◌then◌else◌, option_ind,
}
use agent_tab_bridge.Base.Maps.{
  lookup, insert, delete, Entries, Entries-insert, Entries-delete, Entries-lookup,
}
use agent_tab_bridge.Base.Text.{Str, codes}
use agent_tab_bridge.Json.{Json}
use agent_tab_bridge.Relay.Protocol.{
  TabInfo, ExtensionMessage, hello, tabs, cdp_event, result, error, detached, pong, valid_tabs,
  parse_extension_message,
}
use agent_tab_bridge.Relay.State.{
  Tab, Identity, auto_attaches, Await, Settled, resolved, rejected, Waiter, Job, called, reported,
  unreported, ping, close_extension, Bridge,
}
use agent_tab_bridge.Relay.Targets.{say, emit_detached_from_target}
use agent_tab_bridge.Relay.Extension.{
  settle_pending, rejections, reject_pending, gone_tab, waiter_jobs, waiter_rejections,
  reject_waiters, emit_if_attached, emit_all_detached, forget_tabs, handle_extension_gone, ids_of,
  key_of, drop_missing, any_auto_attach, waiting, new_tab, add_tab, add_tabs, sync_tabs,
  attach_extension_socket, detach_tab, message_text, handle_extension_message, greet,
  extension_message, on_extension_message, is_current, on_extension_close, ping_ticks,
}
use agent_tab_bridge.Relay.Safety.Invariant.{
  TabKnown, PendingKnown, JobKnown, Safe, say-Safe, enqueue-Safe, with_tabs-Safe,
  with_sessions-Safe, with_pending-Safe,
}
use agent_tab_bridge.Relay.Safety.Sessions.{
  emit_detached_from_target-Safe, forward_extension_event-Safe,
}
use agent_tab_bridge.Relay.Safety.Claims.{claim_and_attach_tab-Safe}

-- The tabs that a message of the extension reports.
unfoldable pub tabs_of : Option ExtensionMessage → List ℕ
tabs_of (some (hello user_agent browser_version extension_version value)) =
    ids_of (valid_tabs value)
tabs_of (some (tabs value)) = ids_of (valid_tabs value)
tabs_of _ = []

module _ (K : ℕ → Type 0) where
  pub settle_pending-Safe :
      (seq : ℕ) (s : Settled) (m : Bridge) → Safe K m → Safe K (settle_pending seq s m)
  unfolding settle_pending
  settle_pending-Safe seq s m h =
      option_ind (Safe K) (lookup seq m.pending) (λ e. h)
        (λ await e.
          enqueue-Safe K (called await s ∷ []) (record m { pending = delete seq m.pending })
            (Entries-lookup (PendingKnown K) seq await m.pending h.safe_pending e, tt)
            (with_pending-Safe K _ m (Entries-delete (PendingKnown K) seq m.pending h.safe_pending)
              h))

  rejections-Known :
      (message : Str) (ps : List (ℕ × Await))
      → Entries (PendingKnown K) ps
      → All (JobKnown K) (rejections message ps)
  unfolding rejections
  rejections-Known message [] h = tt
  rejections-Known message ((seq, await) ∷ ps) h = (h.0, rejections-Known message ps h.1)

  pub reject_pending-Safe :
      (message : Str) (m : Bridge) → Safe K m → Safe K (reject_pending message m)
  unfolding reject_pending
  reject_pending-Safe message m h =
      enqueue-Safe K (rejections message m.pending) (record m { pending = [] })
        (rejections-Known message m.pending h.safe_pending) (with_pending-Safe K [] m tt h)

  waiter_jobs-Known :
      (f : Waiter → Job) (ws : List (ℕ × Waiter))
      → ((w : Waiter) → JobKnown K (f w))
      → All (JobKnown K) (waiter_jobs f ws)
  unfolding waiter_jobs
  waiter_jobs-Known f [] p = tt
  waiter_jobs-Known f ((n, w) ∷ ws) p = (p w, waiter_jobs-Known f ws p)

  waiter_rejections-Known :
      (ws : List (ℕ × List (ℕ × Waiter))) → All (JobKnown K) (waiter_rejections ws)
  unfolding waiter_rejections
  waiter_rejections-Known [] = tt
  waiter_rejections-Known ((tab_id, ws) ∷ rest) =
      All-append (JobKnown K) (waiter_jobs (unreported (gone_tab tab_id)) ws)
        (waiter_rejections rest) (waiter_jobs-Known (unreported (gone_tab tab_id)) ws (λ w. tt))
        (waiter_rejections-Known rest)

  pub reject_waiters-Safe : (m : Bridge) → Safe K m → Safe K (reject_waiters m)
  unfolding reject_waiters
  reject_waiters-Safe m h =
      enqueue-Safe K (waiter_rejections m.waiters) (record m { waiters = [] })
        (waiter_rejections-Known m.waiters) h

  emit_if_attached-Safe :
      (tab_id : ℕ) (tab : Tab) (m : Bridge) → Safe K m → Safe K (emit_if_attached tab_id tab m)
  emit_if_attached-Safe tab_id tab m h =
      option_ind (Safe K) tab.attached (λ e. h)
        (λ a e. emit_detached_from_target-Safe K tab_id a m h)

  emit_all_detached-Safe :
      (ts : List (ℕ × Tab)) (m : Bridge) → Safe K m → Safe K (emit_all_detached ts m)
  unfolding emit_all_detached
  emit_all_detached-Safe [] m h = h
  emit_all_detached-Safe ((tab_id, tab) ∷ ts) m h =
      emit_all_detached-Safe ts (emit_if_attached tab_id tab m)
        (emit_if_attached-Safe tab_id tab m h)

  pub forget_tabs-Safe : (m : Bridge) → Safe K m → Safe K (forget_tabs m)
  forget_tabs-Safe m h =
      with_tabs-Safe K [] (record m { children = [] }) tt
        (with_sessions-Safe K m.auxiliary [] m h.safe_auxiliary tt h)

  pub handle_extension_gone-Safe : (m : Bridge) → Safe K m → Safe K (handle_extension_gone m)
  unfolding handle_extension_gone
  handle_extension_gone-Safe m h =
      let gone = record m { extension = none; pinging = false } in
      let rejected = reject_pending (codes "extension disconnected") gone in
      forget_tabs-Safe (emit_all_detached m.tabs (reject_waiters rejected)) (
        emit_all_detached-Safe m.tabs (reject_waiters rejected)
          (reject_waiters-Safe rejected (reject_pending-Safe _ gone h)))

  drop_missing-Safe :
      (ids : List ℕ) (ts : List (ℕ × Tab)) (m : Bridge) → Safe K m → Safe K (drop_missing ids ts m)
  unfolding drop_missing
  drop_missing-Safe ids [] m h = h
  drop_missing-Safe ids ((tab_id, tab) ∷ ts) m h =
      let emitted = emit_if_attached tab_id tab m in
      let safe : Safe K emitted = emit_if_attached-Safe tab_id tab m h in
      drop_missing-Safe ids ts
        (if contains ids tab_id then m else record emitted { tabs = delete tab_id emitted.tabs })
        (if_ind (Safe K) (contains ids tab_id) (λ e. h)
          (λ e.
            with_tabs-Safe K _ emitted
              (Entries-delete (TabKnown K) tab_id emitted.tabs safe.safe_tabs) safe))

  new_tab-Safe : (info : TabInfo) (m : Bridge) → K info.tab_id → Safe K m → Safe K (new_tab info m)
  new_tab-Safe info m k h =
      let tab : Tab = record { ref = m.next_ref; info = info; attached = none } in
      let ts = insert info.tab_id tab m.tabs in
      enqueue-Safe K (waiter_jobs (reported info.tab_id) (waiting info.tab_id m))
        (record m { tabs = ts; next_ref = m.next_ref + 1; waiters = delete info.tab_id m.waiters })
        (waiter_jobs-Known (reported info.tab_id) (waiting info.tab_id m) (λ w. tt))
        (with_tabs-Safe K ts m (Entries-insert (TabKnown K) info.tab_id tab m.tabs h.safe_tabs k) h)

  add_tab-Safe : (info : TabInfo) (m : Bridge) → K info.tab_id → Safe K m → Safe K (add_tab info m)
  unfolding add_tab
  add_tab-Safe info m k h =
      let fresh = new_tab-Safe info m k h in
      option_ind (Safe K) (lookup info.tab_id m.tabs)
        (λ e.
          if_ind (Safe K) (any_auto_attach m.clients)
            (λ d.
              claim_and_attach_tab-Safe K info.tab_id (auto_attaches info.tab_id) (new_tab info m)
                tt fresh)
            (λ d. fresh))
        (λ tab e.
          with_tabs-Safe K (insert info.tab_id (record tab { info = info }) m.tabs) m
            (Entries-insert (TabKnown K) info.tab_id (record tab { info = info }) m.tabs h.safe_tabs
              k)
            h)

  add_tabs-Safe :
      (is : List TabInfo) (m : Bridge) → All K (ids_of is) → Safe K m → Safe K (add_tabs is m)
  unfolding add_tabs
  add_tabs-Safe [] m k h = h
  add_tabs-Safe (i ∷ is) m k h = add_tabs-Safe is (add_tab i m) k.1 (add_tab-Safe i m k.0 h)

  sync_tabs-Safe :
      (is : List TabInfo) (m : Bridge) → All K (ids_of is) → Safe K m → Safe K (sync_tabs is m)
  unfolding sync_tabs
  sync_tabs-Safe is m k h =
      add_tabs-Safe is (drop_missing (ids_of is) m.tabs m) k
        (drop_missing-Safe (ids_of is) m.tabs m h)

  pub attach_extension_socket-Safe :
      (socket : ℕ) (m : Bridge) → Safe K m → Safe K (attach_extension_socket socket m)
  unfolding attach_extension_socket
  attach_extension_socket-Safe socket m h =
      if_ind (Safe K) (m.closing || m.disposed)
        (λ e. say-Safe K (close_extension socket 1001 ∷ []) m (tt, tt) h)
        (λ e.
          option_ind (Safe K) m.extension (λ d. h)
            (λ x d.
              handle_extension_gone-Safe (say (close_extension x.0 4000 ∷ []) m)
                (say-Safe K (close_extension x.0 4000 ∷ []) m (tt, tt) h)))

  detach_tab-Safe : (tab_id : ℕ) (m : Bridge) → Safe K m → Safe K (detach_tab tab_id m)
  unfolding detach_tab
  detach_tab-Safe tab_id m h =
      option_ind (Safe K) (lookup tab_id m.tabs) (λ e. h)
        (λ tab e.
          option_ind (Safe K) tab.attached (λ d. h)
            (λ a d.
              let emitted = emit_detached_from_target tab_id a m in
              let safe : Safe K emitted = emit_detached_from_target-Safe K tab_id a m h in
              with_tabs-Safe K (insert tab_id (record tab { attached = none }) emitted.tabs) emitted
                (Entries-insert (TabKnown K) tab_id (record tab { attached = none }) emitted.tabs
                  safe.safe_tabs (Entries-lookup (TabKnown K) tab_id tab m.tabs h.safe_tabs e))
                safe))

  handle_extension_message-Safe :
      (msg : ExtensionMessage) (m : Bridge)
      → All K (tabs_of (some msg))
      → Safe K m
      → Safe K (handle_extension_message msg m)
  unfolding handle_extension_message tabs_of
  handle_extension_message-Safe (hello user_agent browser_version extension_version value) m k h = h
  handle_extension_message-Safe (result seq value) m k h =
      option_ind (Safe K) (key_of seq) (λ e. h) (λ n e. settle_pending-Safe n (resolved value) m h)
  handle_extension_message-Safe (error seq message) m k h =
      option_ind (Safe K) (key_of seq) (λ e. h)
        (λ n e. settle_pending-Safe n (rejected (message_text message)) m h)
  handle_extension_message-Safe (cdp_event tab_id session method params) m k h =
      option_ind (Safe K) (key_of tab_id) (λ e. h)
        (λ n e. forward_extension_event-Safe K n session method params m h)
  handle_extension_message-Safe (tabs value) m k h = sync_tabs-Safe (valid_tabs value) m k h
  handle_extension_message-Safe (detached tab_id) m k h =
      option_ind (Safe K) (key_of tab_id) (λ e. h) (λ n e. detach_tab-Safe n m h)
  handle_extension_message-Safe pong m k h = h

  refuse-Safe :
      (socket : ℕ) (m : Bridge) → Safe K m → Safe K (say (close_extension socket 4001 ∷ []) m)
  refuse-Safe socket m h = say-Safe K (close_extension socket 4001 ∷ []) m (tt, tt) h

  greet-Safe :
      (socket : ℕ) (msg : ExtensionMessage) (m : Bridge)
      → All K (tabs_of (some msg))
      → Safe K m
      → Safe K (greet socket msg m)
  unfolding tabs_of
  greet-Safe socket (hello user_agent browser_version extension_version value) m k h =
      let identity : Identity = record {
        user_agent = user_agent;
        browser_version = browser_version;
        extension_version = extension_version;
      } in
      sync_tabs-Safe (valid_tabs value)
        (record m {
          extension = some (socket, identity);
          greeted = insert socket true m.greeted;
          pinging = true;
        })
        k h
  greet-Safe socket (result seq value) m k h = refuse-Safe socket m h
  greet-Safe socket (error seq message) m k h = refuse-Safe socket m h
  greet-Safe socket (cdp_event tab_id session method params) m k h = refuse-Safe socket m h
  greet-Safe socket (tabs value) m k h = refuse-Safe socket m h
  greet-Safe socket (detached tab_id) m k h = refuse-Safe socket m h
  greet-Safe socket pong m k h = refuse-Safe socket m h

  extension_message-Safe :
      (socket : ℕ) (seen : Bool) (o : Option ExtensionMessage) (m : Bridge)
      → All K (tabs_of o)
      → Safe K m
      → Safe K (extension_message socket seen o m)
  extension_message-Safe socket seen none m k h = h
  extension_message-Safe socket true (some msg) m k h = handle_extension_message-Safe msg m k h
  extension_message-Safe socket false (some msg) m k h = greet-Safe socket msg m k h

  pub on_extension_message-Safe :
      (socket : ℕ) (raw : Option Json) (m : Bridge)
      → All K (tabs_of (parse_extension_message raw))
      → Safe K m
      → Safe K (on_extension_message socket raw m)
  unfolding on_extension_message
  on_extension_message-Safe socket raw m k h =
      if_ind (Safe K) (m.closing || m.disposed) (λ e. h)
        (λ e.
          option_ind (Safe K) (lookup socket m.greeted) (λ d. h)
            (λ seen d. extension_message-Safe socket seen (parse_extension_message raw) m k h))

  pub on_extension_close-Safe :
      (socket : ℕ) (m : Bridge) → Safe K m → Safe K (on_extension_close socket m)
  unfolding on_extension_close
  on_extension_close-Safe socket m h =
      if_ind (Safe K) (is_current socket m.extension) (λ e. handle_extension_gone-Safe m h) (λ e. h)

  pub ping_ticks-Safe : (sends : Bool) (m : Bridge) → Safe K m → Safe K (ping_ticks sends m)
  unfolding ping_ticks
  ping_ticks-Safe sends m h =
      if_ind (Safe K) m.pinging
        (λ e.
          option_ind (Safe K) m.extension (λ d. handle_extension_gone-Safe m h)
            (λ x d.
              if_ind (Safe K) sends (λ s. say-Safe K (ping ∷ []) m (tt, tt) h)
                (λ s. handle_extension_gone-Safe m h)))
        (λ e. h)
