-- ===== src/Monitor/Loop/Checks.antt =====
-- The checks of a monitor (src/cloud/service.rs): one at a time, and none after a panic.
use xcplane.Common.{
  ℕ, ◌+◌, ◌≤◌, Bool, false, List, [], ◌∷◌, ◌++◌, Outcome, ok, err, ◌≡◌, refl, sym, ap, subst, ◌∙◌,
  inl, inr, arith, length, length-append, if◌then◌else◌, In, All,
}
use xcplane.Monitor.{SvcEntry, ActionMap, MonitorError, Handled}
use xcplane.Monitor.Response.{handle_response}
use xcplane.Monitor.Loop.{
  Joined, done, check_failed, crashed, Monitor, start_monitor, tick, answer, reset_fix, after_end,
  Step, ticked, answered, panicked, received, commanded, joined, others, checked, Reach, here, next,
}

-- At most one check runs or waits to be joined, and none where the next one may start.
abbrev pub IsSingle : Monitor → Type 0
IsSingle m = length m.checks + length m.ended ≤ (if m.check_completed then 0 else 1)

length-middle :
    {A : Type 0} (before after l : List A) (a : A)
    → l ≡ before ++ a ∷ after
    → length l ≡ length (before ++ after) + 1
length-middle before after l a e =
    ap length e ∙ omega (arith, length-append before (a ∷ after), length-append before after)

answer-IsSingle :
    (m : Monitor) (rest : List SvcEntry) (h : Handled) (o : Outcome MonitorError SvcEntry)
    → IsSingle m
    → length m.checks ≡ length rest + 1
    → IsSingle (answer m rest h o)
unfolding answer
answer-IsSingle m rest h (ok e) s l = ground (arith, length-append m.ended (done ∷ []))
answer-IsSingle m rest h (err x) s l = ground (arith, length-append m.ended (check_failed ∷ []))

Step-IsSingle :
    {auto_fix : Bool} {threshold : ℕ} (m n : Monitor)
    → Step auto_fix threshold m n
    → IsSingle m
    → IsSingle n
unfolding tick reset_fix
Step-IsSingle m n (ticked c e) s =
    subst IsSingle e (ground (arith, length-append m.checks (m.entry ∷ []), c, s))
Step-IsSingle {auto_fix} {threshold} m n (answered now backup r before after c e) s =
    let h = handle_response auto_fix threshold now backup r m.map in
    subst IsSingle e (
      answer-IsSingle m (before ++ after) h h.outcome s
        (length-middle before after m.checks (checked r) c))
Step-IsSingle m n (panicked map x before after c e) s = subst IsSingle e (
    ground
      (arith, s, length-append m.ended (crashed ∷ []), length-middle before after m.checks x c))
Step-IsSingle m n (received x rest c e) s = subst IsSingle e s
Step-IsSingle m n (commanded e) s = subst IsSingle e s
Step-IsSingle m n (joined j before after c e) s =
    subst IsSingle e (ground (arith, s, length-middle before after m.ended j c))
Step-IsSingle m n (others map e) s = subst IsSingle e s

-- From the start of a monitor on, whatever happens, at most one check of its service runs, and none
-- while the next one may start.
pub Reach-IsSingle :
    {auto_fix : Bool} {threshold : ℕ} (start : SvcEntry) (map : ActionMap) (m : Monitor)
    → Reach auto_fix threshold (start_monitor start map) m
    → IsSingle m
unfolding start_monitor
Reach-IsSingle start map m here = omega arith
Reach-IsSingle start map m (next {n = n} r st) = Step-IsSingle n m st (Reach-IsSingle start map n r)

-- No check runs or may start, and what waits to be joined are panics.
pub record IsHalted (m : Monitor) : Type 0 where
  pub closed : m.check_completed ≡ false
  pub idle : m.checks ≡ []
  pub panics : All (λ j. j ≡ crashed) m.ended

not-middle : {A : Type 0} (before after : List A) (a : A) → [] ≡ before ++ a ∷ after → ⊥
not-middle [] after a e = cc
not-middle (b ∷ before) after a e = cc

All-middle :
    {A : Type 0} (P : A → Type 0) (before after : List A) (a : A)
    → All P (before ++ a ∷ after)
    → P a × All P (before ++ after)
All-middle P [] after a h = h
All-middle P (b ∷ before) after a h =
    let (first, rest) = All-middle P before after a h.1 in (first, (h.0, rest))

Step-IsHalted :
    {auto_fix : Bool} {threshold : ℕ} (m n : Monitor)
    → Step auto_fix threshold m n
    → IsHalted m
    → IsHalted n
unfolding tick reset_fix after_end
Step-IsHalted m n (ticked c e) h = ground (arith, c, h.closed)
Step-IsHalted m n (answered now backup r before after c e) h =
    absurd (not-middle before after (checked r) (sym h.idle ∙ c))
Step-IsHalted m n (panicked map x before after c e) h =
    absurd (not-middle before after x (sym h.idle ∙ c))
Step-IsHalted m n (received x rest c e) h =
    subst IsHalted e (record { closed = h.closed; idle = h.idle; panics = h.panics })
Step-IsHalted m n (commanded e) h =
    subst IsHalted e (record { closed = h.closed; idle = h.idle; panics = h.panics })
Step-IsHalted m n (joined j before after c e) h =
    let (panic, rest) =
      All-middle (λ x. x ≡ crashed) before after j (subst (All (λ x. x ≡ crashed)) c h.panics) in
    subst IsHalted e (record {
      closed = ap (λ x. after_end x m.check_completed) panic ∙ h.closed;
      idle = h.idle;
      panics = rest;
    })
Step-IsHalted m n (others map e) h =
    subst IsHalted e (record { closed = h.closed; idle = h.idle; panics = h.panics })

halted_of :
    (l : List Joined) (checks : List SvcEntry) (completed : Bool)
    → length checks + length l ≤ (if completed then 0 else 1)
    → In crashed l
    → (completed ≡ false) × (checks ≡ []) × (l ≡ crashed ∷ [])
halted_of [] checks completed s i = elim i [ ]
halted_of (j ∷ []) [] completed s (inl e) = ground (arith, s, e)
halted_of (j ∷ []) [] completed s (inr i) = elim i [ ]
halted_of (j ∷ []) (c ∷ checks) completed s i = ground (arith, s)
halted_of (j ∷ k ∷ l) checks completed s i = ground (arith, s)

-- After a panic of a check no check of the service runs and none may start, whatever steps follow.
pub Reach-IsHalted :
    {auto_fix : Bool} {threshold : ℕ} (start : SvcEntry) (map : ActionMap) (m n : Monitor)
    → Reach auto_fix threshold (start_monitor start map) m
    → In crashed m.ended
    → Reach auto_fix threshold m n
    → IsHalted n
Reach-IsHalted start map m n r i here =
    let (closed, idle, ended) =
      halted_of m.ended m.checks m.check_completed (Reach-IsSingle start map m r) i in
    record {
      closed = closed;
      idle = idle;
      panics = subst (All (λ x. x ≡ crashed)) (sym ended) (refl, tt);
    }
Reach-IsHalted start map m n r i (next {n = p} q st) =
    Step-IsHalted p n st (Reach-IsHalted start map m p r i q)
