-- ===== src/Monitor/Attempts.antt =====
-- The number of fix attempts, and the branch of Nginx in `handle_response`, of
-- src/cloud/service.rs.
use xcplane.Common.{
  ℕ, ◌+◌, ◌≤◌, ◌<◌, ◌≡◌, true, false, Option, none, some, [], ◌∷◌, ok, All, arith, Bool-cases, inl,
  inr, subst, ok-injective, ltb, ◌&&◌, string_eq, pair_eq, ◌==◌,
}
use xcplane.Server.Kind.{ssh, svc_kind_eq}
use xcplane.Monitor.{
  SvcEntry, Job, running, finished, DashAction, Key, ActionMap, task, action_at, update_at,
  sibling_health_check, MonitorError, fix_try_of, Handled, with_fix_try, quiet, failure,
  without_job, nginx_start, nginx_job, nginx_entry, nginx_fix,
}

-- No action of the map counts more than two attempts.
abbrev pub AtMostTwo : ActionMap → Type 0
AtMostTwo map = All (λ (p : Key × DashAction). p.1.fix_try ≤ 2) map

-- Neither the map nor the entry that a call leaves counts more than two attempts.
abbrev pub IsBounded : Handled → Type 0
IsBounded h = AtMostTwo h.map × ((e : SvcEntry) → h.outcome ≡ ok e → e.status.fix_try ≤ 2)

pub quiet-IsBounded :
    (map : ActionMap) (e : SvcEntry)
    → AtMostTwo map
    → e.status.fix_try ≤ 2
    → IsBounded (quiet map e)
quiet-IsBounded map e m b = (
  m,
  λ x h. subst (λ (y : SvcEntry). y.status.fix_try ≤ 2) (ok-injective {E = MonitorError} e x h) b,
)

pub failure-IsBounded :
    (map : ActionMap) (x : MonitorError) → AtMostTwo map → IsBounded (failure map x)
failure-IsBounded map x m = (m, λ e h. ground (arith, h))

pub update_at-AtMostTwo :
    (k : Key) (f : DashAction → DashAction) (map : ActionMap)
    → ((a : DashAction) → a.fix_try ≤ 2 → (f a).fix_try ≤ 2)
    → AtMostTwo map
    → AtMostTwo (update_at k f map)
unfolding update_at
update_at-AtMostTwo k f [] keep m = tt
update_at-AtMostTwo k f ((j, a) ∷ map) keep m = elim (Bool-cases (j == k)) [
  | inl p ↦ rw p (keep a m.0, m.1)
  | inr p ↦ rw p (m.0, update_at-AtMostTwo k f map keep m.1)
]

pub fix_try_of-le :
    (k : Key) (map : ActionMap) {n : ℕ}
    → AtMostTwo map
    → fix_try_of (action_at k map) ≡ ok n
    → n ≤ 2
unfolding action_at fix_try_of
fix_try_of-le k [] m h = cc
fix_try_of-le k ((j, a) ∷ map) {n} m h = elim (Bool-cases (j == k)) [
  | inl p ↦
      subst (λ x. x ≤ 2) (ok-injective {E = MonitorError} a.fix_try n (rw (p, action_at) at h)) m.0
  | inr p ↦ fix_try_of-le k map {n = n} m.1 (rw (p, action_at) at h)
]

nginx_start-IsBounded :
    (e : SvcEntry) (map : ActionMap)
    → AtMostTwo map
    → e.status.fix_try ≤ 2
    → IsBounded (nginx_start e map)
unfolding nginx_start
nginx_start-IsBounded e map m b =
    (update_at-AtMostTwo (task e) _ map (λ a h. b) m, (quiet-IsBounded map e m b).1)

nginx_job-IsBounded :
    (job : Option Job) (e : SvcEntry) (map : ActionMap)
    → AtMostTwo map
    → e.status.fix_try < 2
    → IsBounded (nginx_job job e map)
unfolding nginx_job
nginx_job-IsBounded none e map m b = nginx_start-IsBounded e map m (omega arith)
nginx_job-IsBounded (some (running a)) e map m b = quiet-IsBounded map e m (omega arith)
nginx_job-IsBounded (some (finished a true)) e map m b =
    nginx_start-IsBounded (with_fix_try (e.status.fix_try + 1) e)
      (update_at (task e) without_job map)
      (update_at-AtMostTwo (task e) without_job map (λ a h. h) m) (omega arith)
nginx_job-IsBounded (some (finished a false)) e map m b =
    failure-IsBounded _ _ (update_at-AtMostTwo (task e) without_job map (λ a h. h) m)

nginx_entry-IsBounded :
    (o : Option DashAction) (e : SvcEntry) (map : ActionMap)
    → AtMostTwo map
    → e.status.fix_try < 2
    → IsBounded (nginx_entry o e map)
unfolding nginx_entry
nginx_entry-IsBounded none e map m b = failure-IsBounded map _ m
nginx_entry-IsBounded (some a) e map m b = nginx_job-IsBounded a.fix_action e map m b

pub nginx_fix-IsBounded :
    (e : SvcEntry) (map : ActionMap)
    → AtMostTwo map
    → e.status.fix_try ≤ 2
    → IsBounded (nginx_fix e map)
unfolding nginx_fix
nginx_fix-IsBounded e map m b =
    elim (Bool-cases (sibling_health_check e.server map ssh && ltb e.status.fix_try 2)) [
      | inl p ↦ rw p (nginx_entry-IsBounded (action_at (task e) map) e map m (ground arith))
      | inr p ↦ rw p (quiet-IsBounded map e m b)
    ]
