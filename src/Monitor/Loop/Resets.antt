-- ===== src/Monitor/Loop/Resets.antt =====
-- A reset of the fixes while a check runs (`SvcComm::ResetFix`, src/cloud/service.rs).
use xcplane.Common.{
  ℕ, Bool, [], ◌∷◌, ◌++◌, Outcome, ok, ◌≡◌, refl, ap, arith, Bool-cases, inl, inr, leb, ◌&&◌,
  string_eq, pair_eq,
}
use xcplane.Server.Kind.{SvcKind, ssh, nginx, xray}
use xcplane.Monitor.{
  SvcEntry, ActionMap, MonitorError, DashAction, nginx_fix, update_at, task, sick,
}
use xcplane.Monitor.Response.{failed, handle_response, handle_err, count_failure, corrective}
use xcplane.Monitor.Loop.{Monitor, answer, reset_fix, Step, answered, received, Reach, here, next}

-- A failed check of Nginx after two fixes counts the failure, and nothing else.
nginx_fix-spent :
    (e : SvcEntry) (map : ActionMap) → e.status.fix_try ≡ 2 → (nginx_fix e map).outcome ≡ ok e
unfolding nginx_fix
nginx_fix-spent e map spent = rw spent (ground arith)

corrective-spent :
    (kind : SvcKind) (backup : Outcome MonitorError Bool) (e : SvcEntry) (map : ActionMap)
    → kind ≡ nginx
    → e.status.fix_try ≡ 2
    → (corrective kind backup e map).outcome ≡ ok e
unfolding corrective
corrective-spent ssh backup e map same spent = cc same
corrective-spent nginx backup e map same spent = nginx_fix-spent e map spent
corrective-spent (xray name) backup e map same spent = cc same

handle_response-spent :
    (auto_fix : Bool) (threshold now : ℕ) (backup : Outcome MonitorError Bool) (e : SvcEntry)
    (map : ActionMap)
    → e.kind ≡ nginx
    → e.status.fix_try ≡ 2
    → (handle_response auto_fix threshold now backup (failed e) map).outcome
      ≡ ok (count_failure now e)
unfolding handle_response handle_err
handle_response-spent auto_fix threshold now backup e map kind spent =
    let counted = count_failure now e in
    let marked = update_at (task e) (λ (a : DashAction). record a { svc_health = sick }) map in
    elim (Bool-cases (auto_fix && leb threshold counted.status.failed_count)) [
      | inl p ↦ rw p (
          corrective-spent counted.kind backup counted marked (unfold count_failure in kind)
            (unfold count_failure in spent))
      | inr p ↦ rw p refl
    ]

-- A command to reset the fixes is lost when it comes while a check of Nginx runs that started after
-- the two fixes: if the check fails, the monitor can come to a state in which the fixes count as
-- spent again, which is also what was sent to the aggregator last, and no result waits.
pub reset_fix-lost :
    (auto_fix : Bool) (threshold now : ℕ) (backup : Outcome MonitorError Bool) (e : SvcEntry)
    (m : Monitor)
    → m.checks ≡ e ∷ []
    → m.results ≡ []
    → e.kind ≡ nginx
    → e.status.fix_try ≡ 2
    → (n : Monitor) × Reach auto_fix threshold (reset_fix m) n
      × (n.entry.status.fix_try ≡ 2)
      × (n.sent ≡ (reset_fix m).sent ++ n.entry ∷ [])
      × (n.checks ≡ [])
      × (n.results ≡ [])
unfolding reset_fix answer
reset_fix-lost auto_fix threshold now backup e m running none_waits kind spent =
    let r = reset_fix m in
    let h = handle_response auto_fix threshold now backup (failed e) r.map in
    let counted = count_failure now e in
    let made : h.outcome ≡ ok counted =
      handle_response-spent auto_fix threshold now backup e r.map kind spent in
    let a = answer r [] h (ok counted) in
    let first : Step auto_fix threshold r a =
      answered now backup (failed e) [] [] running (ap (answer r [] h) made) in
    let queue : a.results ≡ counted ∷ [] = rw none_waits refl in
    let n : Monitor = record a { entry = counted; results = [] } in
    (
      n,
      next (next here first) (received counted [] queue refl),
      (unfold count_failure in spent),
      refl,
      refl,
      refl,
    )
