-- ===== src/Panel/Session.antt =====
-- `xui_get_call_cookie` and `xui_login` (src/xui/api.rs): the calls that share one session with the
-- panel of a server, as steps of a system. A caller is a number; its place in the function is its
-- `Pc`. The client of the server is there: `new_xui_client` stored it when the monitors started,
-- and nothing takes it away, so the steps begin behind the branch for a server without one. The
-- counter `cookie_count` is a `u64`, and `gate` is who holds `login_gate`. What the panel answers
-- is open: each answer is a step.
pub mod Logins
use xcplane.Common.{
  ℕ, ◌+◌, ◌^◌, ◌%◌, Bool, true, false, Option, none, some, ◌≡◌, ◌≢◌, nat_eqb, if◌then◌else◌,
}

-- Each `ℕ` is the count that the caller has read before its request.
pub data Pc : Type 0 where
  idle : Pc
  -- The request is in flight; it was refused; it is sent again without the gate.
  requested refused resent : ℕ → Pc
  -- It waits for the gate; holds it and has not looked yet; is in `xui_login`; sends again.
  queued locked login fresh : ℕ → Pc

pub record Session : Type 0 where
  pub cookie_count : ℕ  -- u64
  pub gate : Option ℕ
  pub pc : ℕ → Pc

abbrev pub put : (ℕ → Pc) → ℕ → Pc → ℕ → Pc
put f i p j = if nat_eqb i j then p else f j

-- The session with the caller at another place.
abbrev pub at : Session → ℕ → Pc → Session
at s i p = record s { pc = put s.pc i p }

-- `xui_login` has logged in: the counter goes on, and the caller sends again.
abbrev pub logged_in : Session → ℕ → ℕ → Session
logged_in s i n = record (at s i (fresh n)) { cookie_count = (s.cookie_count + 1) % 2 ^ 64 }

-- What caller `i` may do.
pub data Step (i : ℕ) (s t : Session) : Type 0 where
  call : s.pc i ≡ idle → at s i (requested s.cookie_count) ≡ t → Step i s t
  -- An answer with another status, or an error of the connection.
  accept : (n : ℕ) → s.pc i ≡ requested n → at s i idle ≡ t → Step i s t
  -- The status is 401, 403 or 404.
  refuse : (n : ℕ) → s.pc i ≡ requested n → at s i (refused n) ≡ t → Step i s t
  -- `count_after != count_before`
  resend : (n : ℕ) → s.pc i ≡ refused n → s.cookie_count ≢ n → at s i (resent n) ≡ t → Step i s t
  queue : (n : ℕ) → s.pc i ≡ refused n → s.cookie_count ≡ n → at s i (queued n) ≡ t → Step i s t
  lock :
      (n : ℕ)
      → s.pc i ≡ queued n
      → s.gate ≡ none
      → record (at s i (locked n)) { gate = some i } ≡ t
      → Step i s t
  -- `count_locked == count_before` or not.
  enter : (n : ℕ) → s.pc i ≡ locked n → s.cookie_count ≡ n → at s i (login n) ≡ t → Step i s t
  skip : (n : ℕ) → s.pc i ≡ locked n → s.cookie_count ≢ n → at s i (fresh n) ≡ t → Step i s t
  log_in : (n : ℕ) → s.pc i ≡ login n → logged_in s i n ≡ t → Step i s t
  -- An error leaves the function, and so the gate.
  fail : (n : ℕ) → s.pc i ≡ login n → record (at s i idle) { gate = none } ≡ t → Step i s t
  unlock : (n : ℕ) → s.pc i ≡ fresh n → record (at s i idle) { gate = none } ≡ t → Step i s t
  answer : (n : ℕ) → s.pc i ≡ resent n → at s i idle ≡ t → Step i s t

-- All callers are idle; `xui_login` has not been run.
unfoldable pub start_session : Session
start_session = record { cookie_count = 0; gate = none; pc = λ i. idle }

pub data Reach (s : Session) : Session → Type 0 where
  here : Reach s s
  next : {t u : Session} (i : ℕ) → Reach s t → Step i t u → Reach s u
