-- ===== src/Relay/Safety/Jobs.antt =====
-- What follows the ends of promises in the relay's bridge: extension-relay/relay-bridge.ts.
use agent_tab_bridge.Base.{
  ℕ, zero, suc, Option, none, some, List, [], ◌∷◌, All, option_ind, nat_eq, list_eq,
}
use agent_tab_bridge.Base.Maps.{lookup}
use agent_tab_bridge.Base.Text.{Str}
use agent_tab_bridge.Json.{Json}
use agent_tab_bridge.Relay.State.{
  Request, Await, forwards, attaches, detaches, creates, closes, activates, ignores, resolved,
  rejected, Waiter, Job, called, claimed, unclaimed, reported, unreported, Bridge, object,
}
use agent_tab_bridge.Relay.Claims.{server_error}
use agent_tab_bridge.Relay.Jobs.{
  created_tab_id, or_object, success, wait_for_reported_tab, finish_create, on_result, on_failure,
  run_job, take_job, run_one, command_times_out, not_reported, waiter_times_out,
}
use agent_tab_bridge.Relay.Safety.Invariant.{AwaitKnown, JobKnown, Safe, enqueue-Safe}
use agent_tab_bridge.Relay.Safety.Claims.{
  respond-Safe, respond_error-Safe, settle_unclaimed-Safe, finish_attach-Safe, on_claimed-Safe,
  on_unclaimed-Safe,
}
use agent_tab_bridge.Relay.Safety.Extension.{settle_pending-Safe}

module _ (K : ℕ → Type 0) where
  finish_create-Safe :
      (client : ℕ) (request : Request) (o : Option ℕ) (m : Bridge)
      → Safe K m
      → Safe K (finish_create client request o m)
  unfolding finish_create wait_for_reported_tab
  finish_create-Safe client request none m h =
      respond_error-Safe K client request _ server_error m h
  finish_create-Safe client request (some tab_id) m h =
      let w : Waiter = record { client = client; request = request } in
      option_ind (Safe K) (lookup tab_id m.tabs) (λ e. h)
        (λ tab e. enqueue-Safe K (reported tab_id w ∷ []) m (tt, tt) h)

  on_result-Safe :
      (await : Await) (value : Json) (m : Bridge)
      → AwaitKnown K await
      → Safe K m
      → Safe K (on_result await value m)
  unfolding on_result
  on_result-Safe (forwards client request) value m k h =
      respond-Safe K client request (or_object value) m h
  on_result-Safe (attaches tab_id ref) value m k h = finish_attach-Safe K tab_id ref m k h
  on_result-Safe (detaches client request) value m k h =
      respond-Safe K client request (object []) m h
  on_result-Safe (creates client request) value m k h =
      finish_create-Safe client request (created_tab_id value) m h
  on_result-Safe (closes client request) value m k h = respond-Safe K client request success m h
  on_result-Safe (activates client request) value m k h =
      respond-Safe K client request (object []) m h
  on_result-Safe ignores value m k h = h

  on_failure-Safe :
      (await : Await) (message : Str) (m : Bridge) → Safe K m → Safe K (on_failure await message m)
  unfolding on_failure
  on_failure-Safe (forwards client request) message m h =
      respond_error-Safe K client request message server_error m h
  on_failure-Safe (attaches tab_id ref) message m h = settle_unclaimed-Safe K ref message m h
  on_failure-Safe (detaches client request) message m h =
      respond-Safe K client request (object []) m h
  on_failure-Safe (creates client request) message m h =
      respond_error-Safe K client request message server_error m h
  on_failure-Safe (closes client request) message m h =
      respond_error-Safe K client request message server_error m h
  on_failure-Safe (activates client request) message m h =
      respond_error-Safe K client request message server_error m h
  on_failure-Safe ignores message m h = h

  run_job-Safe : (j : Job) (m : Bridge) → JobKnown K j → Safe K m → Safe K (run_job j m)
  unfolding run_job
  run_job-Safe (called await (resolved value)) m k h = on_result-Safe await value m k h
  run_job-Safe (called await (rejected message)) m k h = on_failure-Safe await message m h
  run_job-Safe (claimed who a) m k h = on_claimed-Safe K who a m k h
  run_job-Safe (unclaimed who message) m k h = on_unclaimed-Safe K who message m h
  run_job-Safe (reported tab_id w) m k h = respond-Safe K w.client w.request _ m h
  run_job-Safe (unreported message w) m k h =
      respond_error-Safe K w.client w.request message server_error m h

  abbrev TakenKnown : Option (Job × List Job) → Type 0
  TakenKnown none = Unit
  TakenKnown (some p) = JobKnown K p.0 × All (JobKnown K) p.1

  take_job-Known : (n : ℕ) (js : List Job) → All (JobKnown K) js → TakenKnown (take_job n js)
  unfolding take_job
  take_job-Known n [] h = tt
  take_job-Known zero (j ∷ js) h = h
  take_job-Known (suc n) (j ∷ js) h = go (take_job n js) (take_job-Known n js h.1)
    where
      go :
          (o : Option (Job × List Job))
          → TakenKnown o
          → TakenKnown (elim o [ none ↦ none | some p ↦ some (p.0, j ∷ p.1) ])
      go none k = tt
      go (some p) k = (k.0, (h.0, k.1))

  with_jobs-Safe :
      (js : List Job) (m : Bridge)
      → All (JobKnown K) js
      → Safe K m
      → Safe K (record m { jobs = js })
  with_jobs-Safe js m k h = record {
    safe_log = h.safe_log;
    safe_tabs = h.safe_tabs;
    safe_auxiliary = h.safe_auxiliary;
    safe_children = h.safe_children;
    safe_pending = h.safe_pending;
    safe_claims = h.safe_claims;
    safe_jobs = k;
  }

  pub run_one-Safe : (n : ℕ) (m : Bridge) → Safe K m → Safe K (run_one n m)
  unfolding run_one
  run_one-Safe n m h = go (take_job n m.jobs) (take_job-Known n m.jobs h.safe_jobs)
    where
      go :
          (o : Option (Job × List Job))
          → TakenKnown o
          → Safe K (elim o [ none ↦ m | some p ↦ run_job p.0 (record m { jobs = p.1 }) ])
      go none k = h
      go (some p) k = run_job-Safe p.0 (record m { jobs = p.1 }) k.0 (with_jobs-Safe p.1 m k.1 h)

  pub command_times_out-Safe : (seq : ℕ) (m : Bridge) → Safe K m → Safe K (command_times_out seq m)
  unfolding command_times_out
  command_times_out-Safe seq m h =
      option_ind (Safe K) (lookup seq m.pending) (λ e. h)
        (λ await e. settle_pending-Safe K seq _ m h)

  pub waiter_times_out-Safe :
      (tab_id n : ℕ) (m : Bridge) → Safe K m → Safe K (waiter_times_out tab_id n m)
  unfolding waiter_times_out
  waiter_times_out-Safe tab_id n m h =
      option_ind (Safe K) (lookup tab_id m.waiters) (λ e. h)
        (λ ws e.
          option_ind (Safe K) (lookup n ws) (λ d. h)
            (λ w d. enqueue-Safe K (unreported (not_reported tab_id) w ∷ []) m (tt, tt) h))
