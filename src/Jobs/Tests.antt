-- ===== src/Jobs/Tests.antt =====
-- runtime/async_store.go and async_job.go on concrete jobs.
use sdk_api.Base.{
  ℕ, zero, suc, ◌*◌, ◌≡◌, refl, true, none, some, [], ◌∷◌, arith, nat_eq, string_eq, lookup, insert,
}
use sdk_api.Jobs.Store.{
  pending, processing, JobState, JobStore, new_memory_job_store, new_job, get, updated, update,
  reaped, reap_jobs, reap_stale, minute,
}
use sdk_api.Jobs.Store.Reaping.{RetriesWithin}
use sdk_api.Jobs.Manager.{
  queued, Manager, submit, dispatch, start, submits, dispatches, starts, Reach, here, after,
  new_manager, in_flight,
}
use sdk_api.Jobs.Manager.Invariant.{Inv}
use sdk_api.Jobs.Manager.Reachable.{reach-Inv}
use sdk_api.Jobs.Manager.Lifecycle.{Lawful, Step-Lawful}
use sdk_api.Jobs.Callback.{
  AsyncCallbackConf, Attempt, unreachable, answered, delivered, deliver, sent, notify_callback,
}
use sdk_api.Jobs.Callback.Delivered.{Explains, notify_callback-Explains}

-- A job that is being processed until 100, once retried.
abbrev busy : JobState
busy = record {
  id = "j1";
  status = processing;
  result = none;
  error = "";
  created_at = 1;
  updated_at = 2;
  retry_count = 1;
  max_retries = 3;
  processing_deadline = some 100;
  callback_url = "";
}

abbrev one_busy : JobStore
one_busy = record { jobs = ("j1", busy) ∷ []; processing_timeout = 98 }

abbrev retried : JobState
retried = record busy {
  status = pending;
  updated_at = 200;
  retry_count = 2;
  processing_deadline = none;
}

reap_test : get "j1" (reap_stale 3 200 one_busy).0 ≡ some retried
unfolding get reap_stale reap_jobs reaped lookup
reap_test = refl

one_busy_within : RetriesWithin 3 one_busy
unfolding get lookup
one_busy_within id js e = ground arith

-- One goroutine at a time; one job submitted and started.
abbrev submitted : Manager
submitted = submit "j1" "" 5 (new_manager 3 (some 1))

abbrev dispatched : Manager
dispatched = dispatch "j1" submitted

abbrev started : Manager
started = start "j1" 6 dispatched

reach_started : Reach (new_manager 3 (some 1)) started
unfolding submit dispatch start new_manager new_memory_job_store get lookup insert in_flight
reach_started =
    after (after (after here (submits "j1" "" 5 refl refl)) (dispatches "j1" refl refl))
      (starts "j1" 6 refl)

reach-Inv_example : Inv started
reach-Inv_example = reach-Inv 3 (some 1) started reach_started

abbrev new_j1 : JobState
new_j1 = record (new_job "j1" 5) { max_retries = 3 }

reach_dispatched : Reach (new_manager 3 (some 1)) dispatched
unfolding submit dispatch new_manager new_memory_job_store get lookup insert in_flight
reach_dispatched = after (after here (submits "j1" "" 5 refl refl)) (dispatches "j1" refl refl)

dispatched_j1 : get "j1" dispatched.store ≡ some new_j1
unfolding submit dispatch new_manager new_memory_job_store get lookup insert new_job
dispatched_j1 = refl

abbrev started_j1 : JobState
started_j1 = updated processing none "" (5 * minute) 6 new_j1

start_j1 : get "j1" started.store ≡ some started_j1
unfolding submit dispatch start new_manager new_memory_job_store get lookup insert new_job update
start_j1 = refl

queued_j1 : lookup "j1" dispatched.workers ≡ some queued
unfolding submit dispatch new_manager lookup insert
queued_j1 = refl

dispatched-Inv : Inv dispatched
dispatched-Inv = reach-Inv 3 (some 1) dispatched reach_dispatched

Step-Lawful_example : Lawful new_j1 started_j1
Step-Lawful_example =
    Step-Lawful (starts "j1" 6 queued_j1) "j1" new_j1 started_j1 dispatched-Inv dispatched_j1
      start_j1

-- The first attempt fails, the second is answered.
abbrev second_time : ℕ → Attempt
second_time zero = unreachable
second_time (suc n) = answered 204

abbrev hooks : AsyncCallbackConf
hooks = record { url = "https://hooks.test"; secret = "s"; retry = 2 }

notify_test :
    notify_callback second_time (some hooks) (some busy)
    ≡ sent "https://hooks.test" true (delivered 2)
unfolding notify_callback deliver
notify_test = refl

notify_callback-Explains_example : Explains second_time 3 0 (delivered 2)
notify_callback-Explains_example =
    notify_callback-Explains second_time hooks (some busy) "https://hooks.test" true (delivered 2)
      notify_test

abbrev with_url : JobState
with_url = record busy { callback_url = "https://client.test" }
