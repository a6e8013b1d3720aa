-- ===== src/Panel/Session/Logins.antt =====
-- The logins of the calls that share a session (src/xui/api.rs).
use xcplane.Common.{
  ℕ, ◌+◌, ◌^◌, ◌%◌, ◌<◌, Bool, true, false, Option, none, some, ◌≡◌, ◌≢◌, refl, sym, ap, subst, ◌∙◌,
  nat_eqb, arith, Bool-cases, inl, inr,
}
use xcplane.Panel.Session.{
  Pc, idle, requested, refused, resent, queued, locked, login, fresh, Session, put, at, logged_in,
  Step, call, accept, refuse, resend, queue, lock, enter, skip, log_in, fail, unlock, answer,
  start_session, Reach, here, next,
}

-- The places where a caller holds the gate.
abbrev pub holds : Pc → Bool
holds (locked n) = true
holds (login n) = true
holds (fresh n) = true
holds _ = false

-- The count that a caller in `xui_login` had read before its request.
abbrev pub count_before : Pc → Option ℕ
count_before (login n) = some n
count_before _ = none

abbrev is_held_by : Option ℕ → ℕ → Bool
is_held_by none i = false
is_held_by (some j) i = nat_eqb j i

-- Who holds the gate is where it holds it, and a caller logs in only while the count is the one
-- that it has read.
record IsGuarded (s : Session) : Type 0 where
  held : (i : ℕ) → holds (s.pc i) ≡ is_held_by s.gate i
  current : (i n : ℕ) → count_before (s.pc i) ≡ some n → s.cookie_count ≡ n
  small : s.cookie_count < 2 ^ 64

count_before-holds : (p : Pc) {n : ℕ} → count_before p ≡ some n → holds p ≡ true
count_before-holds (login m) h = refl
count_before-holds _ h = cc

others_free :
    (s : Session) (i : ℕ)
    → IsGuarded s
    → holds (s.pc i) ≡ true
    → (j : ℕ) → nat_eqb i j ≡ false
    → holds (s.pc j) ≡ false
others_free s i g h j other = ground (arith, g.held i, g.held j)

module _ (s : Session) (i : ℕ) (q : Pc) where
  -- Another count is read by no caller that logs in.
  put-current :
      (c : ℕ)
      → ((n : ℕ) → count_before q ≡ some n → c ≡ n)
      → ((j n : ℕ) → nat_eqb i j ≡ false → count_before (s.pc j) ≡ some n → c ≡ n)
      → (j n : ℕ) → count_before (put s.pc i q j) ≡ some n
      → c ≡ n
  put-current c mine theirs j n h = elim (Bool-cases (nat_eqb i j)) [
    | inl same ↦ mine n (rw same at h)
    | inr other ↦ theirs j n other (rw other at h)
  ]

  put-held :
      (gate : Option ℕ)
      → holds q ≡ is_held_by gate i
      → ((j : ℕ) → nat_eqb i j ≡ false → holds (s.pc j) ≡ is_held_by gate j)
      → (j : ℕ) → holds (put s.pc i q j) ≡ is_held_by gate j
  put-held gate mine theirs j = elim (Bool-cases (nat_eqb i j)) [
    | inl same ↦
        let e : i ≡ j = ground arith in rw same (subst (λ x. holds q ≡ is_held_by gate x) e mine)
    | inr other ↦ rw other (theirs j other)
  ]

  -- A caller moves and neither takes nor leaves the gate.
  at-IsGuarded :
      holds q ≡ holds (s.pc i)
      → ((n : ℕ) → count_before q ≡ some n → s.cookie_count ≡ n)
      → IsGuarded s
      → IsGuarded (at s i q)
  at-IsGuarded same mine g = record {
    held = put-held s.gate (same ∙ g.held i) (λ j other. g.held j);
    current = put-current s.cookie_count mine (λ j n other. g.current j n);
    small = g.small;
  }

  -- The holder leaves the gate.
  leave-IsGuarded :
      IsGuarded s
      → holds (s.pc i) ≡ true
      → holds q ≡ false
      → ((n : ℕ) → count_before q ≡ some n → s.cookie_count ≡ n)
      → IsGuarded (record (at s i q) { gate = none })
  leave-IsGuarded g h free mine = record {
    held = put-held none free (others_free s i g h);
    current = put-current s.cookie_count mine (λ j n other. g.current j n);
    small = g.small;
  }

lock-IsGuarded :
    (s : Session) (i n : ℕ)
    → s.gate ≡ none
    → IsGuarded s
    → IsGuarded (record (at s i (locked n)) { gate = some i })
lock-IsGuarded s i n free g = record {
  held =
      put-held s i (locked n) (some i) (ground arith)
        (λ j other. g.held j ∙ ap (λ x. is_held_by x j) free ∙ sym other);
  current = put-current s i (locked n) s.cookie_count (λ m h. cc) (λ j m other. g.current j m);
  small = g.small;
}

logged_in-IsGuarded :
    (s : Session) (i n : ℕ) → s.pc i ≡ login n → IsGuarded s → IsGuarded (logged_in s i n)
logged_in-IsGuarded s i n p g =
    let mine : holds (s.pc i) ≡ true = ap holds p in
    record {
      held = put-held s i (fresh n) s.gate (sym mine ∙ g.held i) (λ j other. g.held j);
      current =
          put-current s i (fresh n) ((s.cookie_count + 1) % 2 ^ 64) (λ m h. cc)
            (λ j m other h.
              ground (arith, others_free s i g mine j other, count_before-holds (s.pc j) h));
      small = omega arith;
    }

Step-IsGuarded : {i : ℕ} (s t : Session) → Step i s t → IsGuarded s → IsGuarded t
Step-IsGuarded {i} s t (call p e) g =
    subst IsGuarded e (at-IsGuarded s i (requested s.cookie_count) (sym (ap holds p)) (λ n h. cc) g)
Step-IsGuarded {i} s t (accept n p e) g =
    subst IsGuarded e (at-IsGuarded s i idle (sym (ap holds p)) (λ n h. cc) g)
Step-IsGuarded {i} s t (refuse n p e) g =
    subst IsGuarded e (at-IsGuarded s i (refused n) (sym (ap holds p)) (λ n h. cc) g)
Step-IsGuarded {i} s t (resend n p c e) g =
    subst IsGuarded e (at-IsGuarded s i (resent n) (sym (ap holds p)) (λ n h. cc) g)
Step-IsGuarded {i} s t (queue n p c e) g =
    subst IsGuarded e (at-IsGuarded s i (queued n) (sym (ap holds p)) (λ n h. cc) g)
Step-IsGuarded {i} s t (lock n p free e) g = subst IsGuarded e (lock-IsGuarded s i n free g)
Step-IsGuarded {i} s t (enter n p c e) g =
    subst IsGuarded e
      (at-IsGuarded s i (login n) (sym (ap holds p)) (λ m h. ground (arith, c, h)) g)
Step-IsGuarded {i} s t (skip n p c e) g =
    subst IsGuarded e (at-IsGuarded s i (fresh n) (sym (ap holds p)) (λ n h. cc) g)
Step-IsGuarded {i} s t (log_in n p e) g = subst IsGuarded e (logged_in-IsGuarded s i n p g)
Step-IsGuarded {i} s t (fail n p e) g =
    subst IsGuarded e (leave-IsGuarded s i idle g (ap holds p) refl (λ n h. cc))
Step-IsGuarded {i} s t (unlock n p e) g =
    subst IsGuarded e (leave-IsGuarded s i idle g (ap holds p) refl (λ n h. cc))
Step-IsGuarded {i} s t (answer n p e) g =
    subst IsGuarded e (at-IsGuarded s i idle (sym (ap holds p)) (λ n h. cc) g)

Reach-IsGuarded : (s : Session) → Reach start_session s → IsGuarded s
unfolding start_session
Reach-IsGuarded s here = record { held = λ i. refl; current = λ i n h. cc; small = omega arith }
Reach-IsGuarded s (next {t = t} i r st) = Step-IsGuarded t s st (Reach-IsGuarded t r)

held_by-eq :
    (gate : Option ℕ) (i j : ℕ) → is_held_by gate i ≡ true → is_held_by gate j ≡ nat_eqb i j
held_by-eq none i j h = cc
held_by-eq (some k) i j h = ground (arith, h)

release :
    (s t : Session) (i n : ℕ)
    → Reach s t
    → t.pc i ≡ fresh n
    → (u : Session) × Reach s u × (u.gate ≡ none)
release s t i n r p = (record (at t i idle) { gate = none }, next i r (unlock n p refl), refl)

put_self : (f : ℕ → Pc) (i : ℕ) (p : Pc) → put f i p i ≡ p
put_self f i p = ground arith

released :
    (s : Session) (i : ℕ) (p : Pc)
    → s.pc i ≡ p
    → holds p ≡ true
    → (t : Session) × Reach s t × (t.gate ≡ none)
released s i (locked n) p h = elim (Bool-cases (nat_eqb s.cookie_count n)) [
  | inl same ↦
      let entered : Step i s (at s i (login n)) = enter n p (ground arith) refl in
      (
        record (at (at s i (login n)) i idle) { gate = none },
        next i (next i here entered) (fail n (put_self s.pc i (login n)) refl),
        refl,
      )
  | inr other ↦
      let skipped : Step i s (at s i (fresh n)) = skip n p (λ e. ground (arith, other, e)) refl in
      release s (at s i (fresh n)) i n (next i here skipped) (put_self s.pc i (fresh n))
]
released s i (login n) p h =
    release s (logged_in s i n) i n (next i here (log_in n p refl)) (put_self s.pc i (fresh n))
released s i (fresh n) p h = release s s i n here p
released s i _ p h = cc

-- Whatever calls come and whatever the panel answers, a caller that logs in holds the gate alone,
-- and nobody has logged in since it read the count before its request. If its login succeeds, the
-- count is another one, so that a caller that has read the same count logs in no more.
pub Reach-login :
    (s : Session) (i n : ℕ)
    → Reach start_session s
    → s.pc i ≡ login n
    → ((j : ℕ) → holds (s.pc j) ≡ nat_eqb i j)
      × (s.cookie_count ≡ n)
      × ((logged_in s i n).cookie_count ≢ n)
Reach-login s i n r p =
    let g = Reach-IsGuarded s r in
    let mine : holds (s.pc i) ≡ true = ap holds p in
    let current = g.current i n (ap count_before p) in
    (
      (λ j. g.held j ∙ held_by-eq s.gate i j (sym (g.held i) ∙ mine)),
      current,
      (λ e. omega (arith, g.small, current, e)),
    )

-- The gate does not stay locked: from a state where a caller holds it, one is reached where it is
-- free.
pub Reach-release :
    (s : Session) (i : ℕ)
    → Reach start_session s
    → s.gate ≡ some i
    → (t : Session) × Reach s t × (t.gate ≡ none)
Reach-release s i r h =
    let g = Reach-IsGuarded s r in
    released s i (s.pc i) refl (g.held i ∙ ap (λ x. is_held_by x i) h ∙ ground arith)
