-- ===== src/Monitor/Loop.antt =====
-- `run_svc_monitor` and `apply_checker` (src/cloud/service.rs): the loop of one monitor as steps on
-- its state, one for each event of its `select!`, with the check that runs beside it. A call of
-- `handle_response` is one step, and a check is answered when both of its `send`s are through. What
-- other monitors do to the shared registry comes between the steps.
pub mod Checks
pub mod Resets
use xcplane.Common.{ℕ, Bool, true, false, none, List, [], ◌∷◌, ◌++◌, Outcome, ok, err, ◌≡◌}
use xcplane.Monitor.{
  healthy, SvcStatus, SvcEntry, DashAction, ActionMap, task, update_at, MonitorError, Handled,
  with_fix_try,
}
use xcplane.Monitor.Response.{Response, passed, failed, handle_response}

-- How a check has ended: in time, with an error, or with a panic.
pub data Joined : Type 0 where
  done check_failed crashed : Joined

-- The entry of the next check, whether it may start, the entries of the checks that run, the
-- results that wait in `rx_checker`, the ends that wait in `check_tasks`, what went to the
-- aggregator, and the registry.
pub record Monitor : Type 0 where
  pub entry : SvcEntry
  pub check_completed : Bool
  pub checks : List SvcEntry
  pub results : List SvcEntry
  pub ended : List Joined
  pub sent : List SvcEntry
  pub map : ActionMap

-- The start of `run_svc_monitor`: the registry takes the stored status.
unfoldable pub start_monitor : SvcEntry → ActionMap → Monitor
unfolding update_at task
start_monitor e map = record {
  entry = e;
  check_completed = true;
  checks = [];
  results = [];
  ended = [];
  sent = [];
  map =
      update_at (task e)
        (λ a. record {
          svc_health = e.status.health;
          fix_try = e.status.fix_try;
          fix_action = none;
        })
        map;
}

-- `interval.tick()`
unfoldable pub tick : Monitor → Monitor
tick m = record m { check_completed = false; checks = m.checks ++ m.entry ∷ [] }

-- The end of `apply_checker`, by the outcome of `handle_response`, where `rest` are the checks that
-- run on.
unfoldable pub answer : Monitor → List SvcEntry → Handled → Outcome MonitorError SvcEntry → Monitor
answer m rest h (ok e) = record m {
  checks = rest;
  results = m.results ++ e ∷ [];
  ended = m.ended ++ done ∷ [];
  sent = m.sent ++ e ∷ [];
  map = h.map;
}
answer m rest h (err x) = record m {
  checks = rest;
  ended = m.ended ++ check_failed ∷ [];
  map = h.map;
}

-- `SvcComm::ResetFix`
unfoldable pub reset_fix : Monitor → Monitor
unfolding update_at task
reset_fix m =
    let e = with_fix_try 0 m.entry in
    record m {
      entry = e;
      sent = m.sent ++ e ∷ [];
      map =
          update_at (task e)
            (λ a. record {
              svc_health = e.status.health;
              fix_try = e.status.fix_try;
              fix_action = none;
            })
            m.map;
    }

-- The match on an end: after a panic no check may start.
unfoldable pub after_end : Joined → Bool → Bool
after_end done completed = true
after_end check_failed completed = true
after_end crashed completed = completed

-- A check leaves its entry as it is.
abbrev pub checked : Response → SvcEntry
checked (passed e) = e
checked (failed e) = e

-- One step, under the settings of the cloud.
pub data Step (auto_fix : Bool) (threshold : ℕ) (m n : Monitor) : Type 0 where
  ticked : m.check_completed ≡ true → tick m ≡ n → Step auto_fix threshold m n
  answered :
      (now : ℕ) (backup : Outcome MonitorError Bool) (r : Response) (before after : List SvcEntry)
      → m.checks ≡ before ++ checked r ∷ after
      → answer m
          (before ++ after)
          (handle_response auto_fix threshold now backup r m.map)
          (handle_response auto_fix threshold now backup r m.map).outcome
        ≡ n
      → Step auto_fix threshold m n
  panicked :
      (map : ActionMap) (e : SvcEntry) (before after : List SvcEntry)
      → m.checks ≡ before ++ e ∷ after
      → record m { checks = before ++ after; ended = m.ended ++ crashed ∷ []; map = map } ≡ n
      → Step auto_fix threshold m n
  received :
      (e : SvcEntry) (rest : List SvcEntry)
      → m.results ≡ e ∷ rest
      → record m { entry = e; results = rest } ≡ n
      → Step auto_fix threshold m n
  commanded : reset_fix m ≡ n → Step auto_fix threshold m n
  joined :
      (j : Joined) (before after : List Joined)
      → m.ended ≡ before ++ j ∷ after
      → record m { check_completed = after_end j m.check_completed; ended = before ++ after } ≡ n
      → Step auto_fix threshold m n
  others : (map : ActionMap) → record m { map = map } ≡ n → Step auto_fix threshold m n

pub data Reach (auto_fix : Bool) (threshold : ℕ) (m : Monitor) : Monitor → Type 0 where
  here : Reach auto_fix threshold m m
  next :
      {n p : Monitor}
      → Reach auto_fix threshold m n
      → Step auto_fix threshold n p
      → Reach auto_fix threshold m p
