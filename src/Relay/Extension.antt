-- ===== src/Relay/Extension.antt =====
-- The extension's side of `ExtensionRelayBridge` of extension-relay/relay-bridge.ts.
use agent_tab_bridge.Base.{
  ℕ, ◌+◌, Bool, true, false, ◌&&◌, ◌||◌, Option, none, some, List, [], ◌∷◌, ◌++◌, ◌==◌,
  if◌then◌else◌, nat_eq, list_eq, contains,
}
use agent_tab_bridge.Base.Maps.{lookup, insert, delete}
use agent_tab_bridge.Base.Text.{Str, codes}
use agent_tab_bridge.Json.{Json, num, str}
use agent_tab_bridge.Relay.Protocol.{
  TabInfo, ExtensionMessage, hello, tabs, cdp_event, result, error, detached, pong, valid_tabs,
  parse_extension_message,
}
use agent_tab_bridge.Relay.State.{
  Tab, Client, Identity, auto_attaches, Await, Settled, resolved, rejected, Waiter, Job, called,
  reported, unreported, ping, close_extension, Bridge,
}
use agent_tab_bridge.Relay.Targets.{say, emit_detached_from_target, forward_extension_event}
use agent_tab_bridge.Relay.Claims.{claim_and_attach_tab, tab_text}

-- The end of a command: its promise is settled and forgotten.
unfoldable pub settle_pending : ℕ → Settled → Bridge → Bridge
settle_pending seq s m = elim (lookup seq m.pending) [
  | none ↦ m
  | some await ↦ record m { pending = delete seq m.pending; jobs = m.jobs ++ called await s ∷ [] }
]

unfoldable pub rejections : Str → List (ℕ × Await) → List Job
rejections message [] = []
rejections message ((seq, await) ∷ ps) = called await (rejected message) ∷ rejections message ps

-- All commands are given up.
unfoldable pub reject_pending : Str → Bridge → Bridge
unfolding rejections
reject_pending message m = record m { pending = []; jobs = m.jobs ++ rejections message m.pending }

abbrev pub gone_tab : ℕ → Str
gone_tab tab_id = tab_text tab_id (codes "is no longer available to this approved session")

unfoldable pub waiter_jobs : (Waiter → Job) → List (ℕ × Waiter) → List Job
waiter_jobs f [] = []
waiter_jobs f ((n, w) ∷ ws) = f w ∷ waiter_jobs f ws

unfoldable pub waiter_rejections : List (ℕ × List (ℕ × Waiter)) → List Job
unfolding waiter_jobs
waiter_rejections [] = []
waiter_rejections ((tab_id, ws) ∷ rest) =
    waiter_jobs (unreported (gone_tab tab_id)) ws ++ waiter_rejections rest

-- Nobody waits for a tab any more.
unfoldable pub reject_waiters : Bridge → Bridge
unfolding waiter_rejections
reject_waiters m = record m { waiters = []; jobs = m.jobs ++ waiter_rejections m.waiters }

abbrev pub emit_if_attached : ℕ → Tab → Bridge → Bridge
emit_if_attached tab_id tab m = elim tab.attached [
  | none ↦ m
  | some a ↦ emit_detached_from_target tab_id a m
]

-- The clients are told that each attached tab has gone.
unfoldable pub emit_all_detached : List (ℕ × Tab) → Bridge → Bridge
emit_all_detached [] m = m
emit_all_detached ((tab_id, tab) ∷ ts) m = emit_all_detached ts (emit_if_attached tab_id tab m)

abbrev pub forget_tabs : Bridge → Bridge
forget_tabs m = record m { tabs = []; children = [] }

-- `handleExtensionGone`.
unfoldable pub handle_extension_gone : Bridge → Bridge
unfolding reject_pending reject_waiters emit_all_detached
handle_extension_gone m = forget_tabs (
    emit_all_detached m.tabs (
      reject_waiters (
        reject_pending (codes "extension disconnected")
          (record m { extension = none; pinging = false }))))

abbrev pub ids_of : List TabInfo → List ℕ
ids_of [] = []
ids_of (i ∷ is) = i.tab_id ∷ ids_of is

-- The tabs that the snapshot no longer has are dropped.
unfoldable pub drop_missing : List ℕ → List (ℕ × Tab) → Bridge → Bridge
drop_missing ids [] m = m
drop_missing ids ((tab_id, tab) ∷ ts) m = drop_missing ids ts (
    if contains ids tab_id then m else record (emit_if_attached tab_id tab m) {
      tabs = delete tab_id (emit_if_attached tab_id tab m).tabs;
    })

unfoldable pub any_auto_attach : List (ℕ × Client) → Bool
any_auto_attach [] = false
any_auto_attach ((id, c) ∷ cs) = (c.connected && c.auto_attach) || any_auto_attach cs

abbrev pub waiting : ℕ → Bridge → List (ℕ × Waiter)
waiting tab_id m = elim (lookup tab_id m.waiters) [ none ↦ [] | some ws ↦ ws ]

abbrev pub new_tab : TabInfo → Bridge → Bridge
new_tab info m = record m {
  tabs = insert info.tab_id (record { ref = m.next_ref; info = info; attached = none }) m.tabs;
  next_ref = m.next_ref + 1;
  waiters = delete info.tab_id m.waiters;
  jobs = m.jobs ++ waiter_jobs (reported info.tab_id) (waiting info.tab_id m);
}

-- A tab of the snapshot: new information, or a new tab, for which others may wait, and which is
-- attached if some client attaches all.
unfoldable pub add_tab : TabInfo → Bridge → Bridge
unfolding any_auto_attach waiter_jobs
add_tab info m = elim (lookup info.tab_id m.tabs) [
  | some tab ↦ record m { tabs = insert info.tab_id (record tab { info = info }) m.tabs }
  | none ↦
      if any_auto_attach m.clients
      then claim_and_attach_tab info.tab_id (auto_attaches info.tab_id) (new_tab info m)
      else new_tab info m
]

unfoldable pub add_tabs : List TabInfo → Bridge → Bridge
unfolding add_tab
add_tabs [] m = m
add_tabs (i ∷ is) m = add_tabs is (add_tab i m)

-- `syncTabs` with the tabs that are valid.
unfoldable pub sync_tabs : List TabInfo → Bridge → Bridge
unfolding drop_missing add_tabs
sync_tabs infos m = add_tabs infos (drop_missing (ids_of infos) m.tabs m)

-- `attachExtensionSocket`: the newest connection replaces the one that has greeted.
unfoldable pub attach_extension_socket : ℕ → Bridge → Bridge
unfolding handle_extension_gone
attach_extension_socket socket m =
    if m.closing || m.disposed
    then say (close_extension socket 1001 ∷ []) m
    else record (elim m.extension [
      | none ↦ m
      | some e ↦ handle_extension_gone (say (close_extension e.0 4000 ∷ []) m)
    ]) { greeted = insert socket false m.greeted }

unfoldable pub detach_tab : ℕ → Bridge → Bridge
detach_tab tab_id m = elim (lookup tab_id m.tabs) [
  | none ↦ m
  | some tab ↦ elim tab.attached [
    | none ↦ m
    | some a ↦ record (emit_detached_from_target tab_id a m) {
      tabs =
          insert tab_id (record tab { attached = none })
            (emit_detached_from_target tab_id a m).tabs;
    }
  ]
]

-- An error's message, as `new Error` takes it.
abbrev pub message_text : Json → Str
message_text (str s) = s
message_text _ = []

-- A number as a key of a map. No other value is one of its keys.
abbrev pub key_of : Json → Option ℕ
key_of (num n) = some n
key_of _ = none

-- `handleExtensionMessage`.
unfoldable pub handle_extension_message : ExtensionMessage → Bridge → Bridge
unfolding settle_pending detach_tab
handle_extension_message (hello user_agent browser_version extension_version value) m = m
handle_extension_message (result seq value) m = elim (key_of seq) [
  | none ↦ m
  | some n ↦ settle_pending n (resolved value) m
]
handle_extension_message (error seq message) m = elim (key_of seq) [
  | none ↦ m
  | some n ↦ settle_pending n (rejected (message_text message)) m
]
handle_extension_message (cdp_event tab_id session method params) m = elim (key_of tab_id) [
  | none ↦ m
  | some n ↦ forward_extension_event n session method params m
]
handle_extension_message (tabs value) m = sync_tabs (valid_tabs value) m
handle_extension_message (detached tab_id) m = elim (key_of tab_id) [
  | none ↦ m
  | some n ↦ detach_tab n m
]
handle_extension_message pong m = m

abbrev pub greet : ℕ → ExtensionMessage → Bridge → Bridge
greet socket (hello user_agent browser_version extension_version value) m =
    sync_tabs (valid_tabs value) (record m {
      extension = some (
        socket,
        record {
          user_agent = user_agent;
          browser_version = browser_version;
          extension_version = extension_version;
        },
      );
      greeted = insert socket true m.greeted;
      pinging = true;
    })
greet socket _ m = say (close_extension socket 4001 ∷ []) m

abbrev pub extension_message : ℕ → Bool → Option ExtensionMessage → Bridge → Bridge
extension_message socket seen none m = m
extension_message socket true (some msg) m = handle_extension_message msg m
extension_message socket false (some msg) m = greet socket msg m

-- A message of a socket of the extension: the first must greet.
unfoldable pub on_extension_message : ℕ → Option Json → Bridge → Bridge
unfolding handle_extension_message sync_tabs
on_extension_message socket raw m =
    if m.closing || m.disposed then m else elim (lookup socket m.greeted) [
      | none ↦ m
      | some seen ↦ extension_message socket seen (parse_extension_message raw) m
    ]

abbrev pub is_current : ℕ → Option (ℕ × Identity) → Bool
is_current socket none = false
is_current socket (some e) = e.0 == socket

-- A socket of the extension closes.
unfoldable pub on_extension_close : ℕ → Bridge → Bridge
unfolding handle_extension_gone
on_extension_close socket m = if is_current socket m.extension then handle_extension_gone m else m

-- The interval of `startPing`; a send that throws is an extension that has gone.
unfoldable pub ping_ticks : Bool → Bridge → Bridge
unfolding handle_extension_gone
ping_ticks sends m =
    if m.pinging
    then elim m.extension [
      | none ↦ handle_extension_gone m
      | some e ↦ if sends then say (ping ∷ []) m else handle_extension_gone m
    ]
    else m
