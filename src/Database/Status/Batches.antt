-- ===== src/Database/Status/Batches.antt =====
-- The aggregator of src/cloud/service.rs loses no status and keeps their order.
use xcplane.Common.{
  ℕ, ◌<◌, String, Bool, true, Option, none, some, List, [], ◌∷◌, ◌++◌, ok, if◌then◌else◌, string_eq,
  pair_eq, length, length-append, leb, is_empty, ◌≡◌, refl, ap, ◌∙◌, arith, Bool-cases, inl, inr,
  All, nat_eqb, nat_eqb_iff, or_else, get_or, ◌>>=◌, str_eq, ◌&&◌,
}
use xcplane.Server.Kind.{SvcKind, to_string}
use xcplane.Monitor.{SvcStatus, SvcEntry}
use xcplane.Database.{StatRow}
use xcplane.Database.Tables.{Table}
use xcplane.Database.Tables.Laws.{get-update}
use xcplane.Database.Status.{
  read_status_data, stat_row, write_status_data, Event, received, tick, Aggregator, flush,
  aggregate, run_aggregator,
}

-- The entries among the events, in order.
abbrev pub entries : List Event → List SvcEntry
entries [] = []
entries (received nstats stat ∷ events) = stat ∷ entries events
entries (tick ∷ events) = entries events

abbrev pub sent : ℕ → Event → Bool
sent n (received nstats stat) = nat_eqb nstats n
sent n tick = true

-- The table once what waits is written.
abbrev pub settled : Aggregator → Table (String × String) StatRow
settled a = write_status_data a.stats_vec a.stats

write-append :
    (xs ys : List SvcEntry) (t : Table (String × String) StatRow)
    → write_status_data (xs ++ ys) t ≡ write_status_data ys (write_status_data xs t)
unfolding write_status_data
write-append [] ys t = refl
write-append (x ∷ xs) ys t = write-append xs ys _

settled-aggregate :
    (a : Aggregator) (event : Event)
    → settled (aggregate a event) ≡ write_status_data (entries (event ∷ [])) (settled a)
unfolding aggregate flush
settled-aggregate a (received nstats stat) =
    elim (Bool-cases (leb nstats (length (a.stats_vec ++ (stat ∷ []))))) [
      | inl p ↦ rw p (write-append a.stats_vec (stat ∷ []) a.stats)
      | inr p ↦ rw p (write-append a.stats_vec (stat ∷ []) a.stats)
    ]
settled-aggregate a tick = elim (Bool-cases (is_empty a.stats_vec)) [
  | inl p ↦ rw p refl
  | inr p ↦ rw p refl
]

write-entries :
    (event : Event) (events : List Event) (t : Table (String × String) StatRow)
    → write_status_data (entries events) (write_status_data (entries (event ∷ [])) t)
      ≡ write_status_data (entries (event ∷ events)) t
unfolding write_status_data
write-entries (received nstats stat) events t = refl
write-entries tick events t = refl

-- The aggregator, when it has written what waits, has brought the table to where the entries
-- written one by one in the order of their arrival would have.
settled-run_aggregator :
    (a : Aggregator) (events : List Event)
    → settled (run_aggregator a events) ≡ write_status_data (entries events) (settled a)
unfolding run_aggregator
settled-run_aggregator a [] = unfold write_status_data in refl
settled-run_aggregator a (event ∷ events) =
    settled-run_aggregator (aggregate a event) events
    ∙ ap (write_status_data (entries events)) (settled-aggregate a event)
    ∙ write-entries event events (settled a)

-- Each entry is sent with the number of the services.
abbrev pub Sent : ℕ → List Event → Type 0
Sent n events = All (λ event. sent n event ≡ true) events

-- Fewer entries wait than there are services.
aggregate-waiting :
    (n : ℕ) (a : Aggregator) (event : Event)
    → 0 < n
    → sent n event ≡ true
    → length a.stats_vec < n
    → length (aggregate a event).stats_vec < n
unfolding aggregate flush
aggregate-waiting n a (received nstats stat) pos s h =
    ground (arith, nat_eqb_iff nstats n, length-append a.stats_vec (stat ∷ []))
aggregate-waiting n a tick pos s h = ground arith

is_empty-eq-true : {A : Type 0} (l : List A) → is_empty l ≡ true → l ≡ []
is_empty-eq-true [] h = refl
is_empty-eq-true (x ∷ l) h = ground arith

aggregate-tick : (a : Aggregator) → (aggregate a tick).stats_vec ≡ []
unfolding aggregate flush
aggregate-tick a = elim (Bool-cases (is_empty a.stats_vec)) [
  | inl p ↦ rw p (is_empty-eq-true a.stats_vec p)
  | inr p ↦ rw p refl
]

-- When each entry is sent with the number `n` of the services, fewer than `n` entries wait, always;
-- and none after a timeout.
run_aggregator-waiting :
    (n : ℕ) (a : Aggregator) (events : List Event)
    → 0 < n
    → Sent n events
    → length a.stats_vec < n
    → (length (run_aggregator a events).stats_vec < n)
      × ((run_aggregator a (events ++ (tick ∷ []))).stats_vec ≡ [])
unfolding run_aggregator
run_aggregator-waiting n a [] pos s h = (h, aggregate-tick a)
run_aggregator-waiting n a (event ∷ events) pos s h =
    run_aggregator-waiting n (aggregate a event) events pos s.1
      (aggregate-waiting n a event pos s.0 h)

-- The status that was written last for the service.
abbrev pub last_status : String → SvcKind → List SvcEntry → Option SvcStatus
last_status n k [] = none
last_status n k (e ∷ stats) = or_else (last_status n k stats) (
    if str_eq e.server.name n && str_eq (to_string e.kind) (to_string k)
    then some e.status
    else none)

-- A status that is written is read again, for a service that has a row; the last one counts.
read_status_data-write_status_data :
    (n : String) (k : SvcKind) (stats : List SvcEntry) (t : Table (String × String) StatRow)
    → read_status_data n k (write_status_data stats t)
      ≡ (read_status_data n k t >>= λ old. ok (get_or (last_status n k stats) old))
unfolding write_status_data read_status_data
read_status_data-write_status_data n k [] t = ground arith
read_status_data-write_status_data n k (e ∷ stats) t =
    read_status_data-write_status_data n k stats _
    ∙ ground (
      arith,
      get-update (e.server.name, to_string e.kind) (n, to_string k) (λ old. stat_row e.status) t,
    )

-- The aggregator loses no status and keeps their order: once it has written what waits, the table
-- is as if each entry had been written alone when it came, and a service that has a row is read
-- with the status that came last, else with its old one.
pub run_aggregator-settled :
    (a : Aggregator) (events : List Event) (n : String) (k : SvcKind)
    → (settled (run_aggregator a events) ≡ write_status_data (entries events) (settled a))
      × (read_status_data n k (settled (run_aggregator a events)) ≡ (
          read_status_data n k (settled a) >>= λ old.
          ok (get_or (last_status n k (entries events)) old)))
run_aggregator-settled a events n k =
    let same = settled-run_aggregator a events in
    (
      same,
      ap (read_status_data n k) same
          ∙ read_status_data-write_status_data n k (entries events) (settled a),
    )
