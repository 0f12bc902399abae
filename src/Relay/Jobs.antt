-- ===== src/Relay/Jobs.antt =====
-- What follows the end of an awaited promise in extension-relay/relay-bridge.ts: the rest of
-- `claimAndAttachTab` and of the requests after their wait, and the time limits of the waits.
use agent_tab_bridge.Base.{
  ℕ, zero, suc, ◌+◌, true, Option, none, some, List, [], ◌∷◌, ◌++◌, leb, if◌then◌else◌, nat_eq,
  list_eq,
}
use agent_tab_bridge.Base.Maps.{lookup, insert, delete}
use agent_tab_bridge.Base.Text.{Str, codes}
use agent_tab_bridge.Json.{Json, undefined, null, num, bool, str, obj, get}
use agent_tab_bridge.Relay.Protocol.{max_safe_integer}
use agent_tab_bridge.Relay.State.{
  Request, Await, forwards, attaches, detaches, creates, closes, activates, ignores, resolved,
  rejected, Waiter, Job, called, claimed, unclaimed, reported, unreported, Bridge,
  target_id_for_tab, object,
}
use agent_tab_bridge.Relay.Claims.{
  enqueue, respond, respond_error, server_error, tab_text, settle_unclaimed, finish_attach,
  on_claimed, on_unclaimed,
}
use agent_tab_bridge.Relay.Extension.{settle_pending}

-- `Number.isSafeInteger(created.tabId)`. The browser's numbers of tabs are not negative.
abbrev safe_number : Json → Option ℕ
safe_number (num n) = if leb n max_safe_integer then some n else none
safe_number _ = none

abbrev pub created_tab_id : Json → Option ℕ
created_tab_id (obj fs) = safe_number (get (codes "tabId") fs)
created_tab_id _ = none

abbrev add_waiter : ℕ → Waiter → Option (List (ℕ × Waiter)) → List (ℕ × Waiter)
add_waiter n w none = (n, w) ∷ []
add_waiter n w (some ws) = ws ++ (n, w) ∷ []

-- `waitForReportedTab`.
unfoldable pub wait_for_reported_tab : ℕ → Waiter → Bridge → Bridge
wait_for_reported_tab tab_id w m = elim (lookup tab_id m.tabs) [
  | some tab ↦ enqueue (reported tab_id w ∷ []) m
  | none ↦ record m {
    waiters = insert tab_id (add_waiter m.next_ref w (lookup tab_id m.waiters)) m.waiters;
    next_ref = m.next_ref + 1;
  }
]

unfoldable pub finish_create : ℕ → Request → Option ℕ → Bridge → Bridge
unfolding wait_for_reported_tab
finish_create client request none m =
    respond_error client request (codes "extension did not return a valid tabId for createTab")
      server_error m
finish_create client request (some tab_id) m =
    wait_for_reported_tab tab_id (record { client = client; request = request }) m

abbrev pub success : Json
success = object ((codes "success", bool true) ∷ [])

-- `result ?? {}`.
abbrev pub or_object : Json → Json
or_object undefined = object []
or_object null = object []
or_object j = j

-- What follows a command to the extension that has a result, and one that has failed.
unfoldable pub on_result : Await → Json → Bridge → Bridge
unfolding finish_attach finish_create
on_result (forwards client request) value m = respond client request (or_object value) m
on_result (attaches tab_id ref) value m = finish_attach tab_id ref m
on_result (detaches client request) value m = respond client request (object []) m
on_result (creates client request) value m = finish_create client request (created_tab_id value) m
on_result (closes client request) value m = respond client request success m
on_result (activates client request) value m = respond client request (object []) m
on_result ignores value m = m

unfoldable pub on_failure : Await → Str → Bridge → Bridge
unfolding settle_unclaimed
on_failure (forwards client request) message m = respond_error client request message server_error m
on_failure (attaches tab_id ref) message m = settle_unclaimed ref message m
on_failure (detaches client request) message m = respond client request (object []) m
on_failure (creates client request) message m = respond_error client request message server_error m
on_failure (closes client request) message m = respond_error client request message server_error m
on_failure (activates client request) message m =
    respond_error client request message server_error m
on_failure ignores message m = m

unfoldable pub run_job : Job → Bridge → Bridge
unfolding on_result on_failure on_claimed on_unclaimed
run_job (called await (resolved value)) m = on_result await value m
run_job (called await (rejected message)) m = on_failure await message m
run_job (claimed who a) m = on_claimed who a m
run_job (unclaimed who message) m = on_unclaimed who message m
run_job (reported tab_id w) m =
    respond w.client w.request (object ((codes "targetId", str (target_id_for_tab tab_id)) ∷ [])) m
run_job (unreported message w) m = respond_error w.client w.request message server_error m

-- One of the jobs, and the others.
unfoldable pub take_job : ℕ → List Job → Option (Job × List Job)
take_job n [] = none
take_job zero (j ∷ js) = some (j, js)
take_job (suc n) (j ∷ js) = elim (take_job n js) [ none ↦ none | some p ↦ some (p.0, j ∷ p.1) ]

-- One of the jobs is run. The order of jobs is not fixed.
unfoldable pub run_one : ℕ → Bridge → Bridge
unfolding take_job run_job
run_one n m = elim (take_job n m.jobs) [ none ↦ m | some p ↦ run_job p.0 (record m { jobs = p.1 }) ]

abbrev pub type_of : Await → Str
type_of (forwards client request) = codes "cdp"
type_of (attaches tab_id ref) = codes "attach"
type_of (detaches client request) = codes "detach"
type_of (creates client request) = codes "createTab"
type_of (closes client request) = codes "closeTab"
type_of (activates client request) = codes "activateTab"
type_of ignores = codes "detach"

-- The time for a command is over.
unfoldable pub command_times_out : ℕ → Bridge → Bridge
unfolding settle_pending
command_times_out seq m = elim (lookup seq m.pending) [
  | none ↦ m
  | some await ↦
      settle_pending seq (rejected (codes "extension relay command timed out: " ++ type_of await)) m
]

abbrev without_waiter :
    ℕ → ℕ → List (ℕ × Waiter) → List (ℕ × List (ℕ × Waiter)) → List (ℕ × List (ℕ × Waiter))
without_waiter tab_id n [] waiters = delete tab_id waiters
without_waiter tab_id n (w ∷ ws) waiters = insert tab_id (w ∷ ws) waiters

abbrev pub not_reported : ℕ → Str
not_reported tab_id =
    codes "extension did not report " ++ tab_text tab_id (codes "in the approved session snapshot")

abbrev pub waiter_times_out_among : ℕ → ℕ → List (ℕ × Waiter) → Bridge → Bridge
waiter_times_out_among tab_id n ws m = elim (lookup n ws) [
  | none ↦ m
  | some w ↦ record m {
    waiters = without_waiter tab_id n (delete n ws) m.waiters;
    jobs = m.jobs ++ unreported (not_reported tab_id) w ∷ [];
  }
]

-- The time to wait for a created tab is over.
unfoldable pub waiter_times_out : ℕ → ℕ → Bridge → Bridge
waiter_times_out tab_id n m = elim (lookup tab_id m.waiters) [
  | none ↦ m
  | some ws ↦ waiter_times_out_among tab_id n ws m
]
