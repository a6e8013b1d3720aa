-- ===== src/Database/Status.antt =====
-- src/db.rs: `read_status_data` and `write_status_data`; src/cloud/service.rs: `run_aggregator`,
-- whose endless loop is a step for each event of its `select!`.
pub mod Batches
use xcplane.Common.{
  ℕ, String, Bool, true, false, Option, none, some, List, [], ◌∷◌, ◌++◌, Outcome, ok, err,
  if◌then◌else◌, string_eq, pair_eq, length, leb, is_empty,
}
use xcplane.Server.{KetServer}
use xcplane.Server.Kind.{SvcKind, to_string}
use xcplane.Monitor.{SvcHealth, SvcStatus, SvcEntry}
use xcplane.Database.{StatRow, Db, DbError, no_row}
use xcplane.Database.Tables.{Table, get, update}

unfoldable pub read_status_data :
    String → SvcKind → Table (String × String) StatRow → Outcome DbError SvcStatus
read_status_data server kind t = elim (get (server, to_string kind) t) [
  | none ↦ err no_row
  | some r ↦ ok (record {
    health = r.health;
    failed_count = r.failed_count;
    failed_since = r.failed_since;
    fix_try = r.fix_try;
  })
]

abbrev pub stat_row : SvcStatus → StatRow
stat_row s = record {
  health = s.health;
  failed_count = s.failed_count;
  failed_since = s.failed_since;
  fix_try = s.fix_try;
}

-- `UPDATE stats … WHERE server_name AND service` for each entry in turn.
unfoldable pub write_status_data :
    List SvcEntry → Table (String × String) StatRow → Table (String × String) StatRow
write_status_data [] t = t
write_status_data (e ∷ stats) t =
    write_status_data stats (update (e.server.name, to_string e.kind) (λ old. stat_row e.status) t)

-- What wakes the aggregator: an entry with the number of the services, or the timeout.
pub data Event : Type 0 where
  received : ℕ → SvcEntry → Event
  tick : Event

pub record Aggregator : Type 0 where
  pub stats_vec : List SvcEntry
  pub stats : Table (String × String) StatRow

unfoldable pub flush : Aggregator → Aggregator
unfolding write_status_data
flush a = record { stats_vec = []; stats = write_status_data a.stats_vec a.stats }

unfoldable pub aggregate : Aggregator → Event → Aggregator
unfolding flush
aggregate a (received nstats stat) =
    let pushed : Aggregator = record a { stats_vec = a.stats_vec ++ (stat ∷ []) } in
    if leb nstats (length pushed.stats_vec) then flush pushed else pushed
aggregate a tick = if is_empty a.stats_vec then a else flush a

unfoldable pub run_aggregator : Aggregator → List Event → Aggregator
unfolding aggregate
run_aggregator a [] = a
run_aggregator a (event ∷ events) = run_aggregator (aggregate a event) events
