-- ===== src/Daemon/Reports/Contents.antt =====
-- What the answers of src/daemon.rs tell.
use Prim.Native.String.{◌++◌}
use mathlib.Core.List.{◌++◌ as append}
use xcplane.Common.{
  ℕ, ◌+◌, not, Bool-cases, inl, inr, eq_iff, String, Bool, true, false, none, List, [], ◌∷◌, Map,
  or_insert, lookup, lookup-or_insert, if◌then◌else◌, str_eq, ◌&&◌, is_empty, find?, all,
  all-append, map_option, ◌≡◌, refl, ap, ◌∙◌, arith, or_else,
}
use xcplane.Server.{KetServer, Cloud}
use xcplane.Monitor.{is_healthy}
use xcplane.Daemon.{nice_display}
use xcplane.Daemon.Reports.{
  ServerCreds, serves, server_creds, insert_creds, build_servers_creds, TaskSummary, SvcSummary,
  SvcHealthSummary, push_service, push_services, task_lines, service_lines, server_lines, join,
  health_text, report, humanize_status_report, short, get_summary,
}

abbrev pub serves_as : String → KetServer → Bool
serves_as n s = serves s && str_eq s.name n

insert_creds-lookup :
    (show_all : Bool) (servers : List KetServer) (creds : Map ServerCreds) (n : String)
    → lookup n (insert_creds show_all servers creds)
      ≡ or_else (lookup n creds) (map_option (server_creds show_all) (find? (serves_as n) servers))
unfolding insert_creds
insert_creds-lookup show_all [] creds n = ground arith
insert_creds-lookup show_all (s ∷ servers) creds n =
    insert_creds-lookup show_all servers
      (if serves s then or_insert s.name (server_creds show_all s) creds else creds) n
    ∙ ground (arith, lookup-or_insert s.name n (server_creds show_all s) creds)

-- The credentials under a name are those of the first enabled production server of the name; no
-- other server has any. The user, the password and the token are in them only when all is shown.
pub build_servers_creds-lookup :
    (cloud : Cloud) (show_all : Bool) (n : String)
    → (lookup n (build_servers_creds cloud show_all)
        ≡ map_option (server_creds show_all) (find? (serves_as n) cloud.servers))
      × ((s : KetServer)
          → (server_creds false s).xui_username ≡ none
            × ((server_creds false s).xui_password ≡ none)
            × ((server_creds false s).xui_token ≡ none))
unfolding build_servers_creds server_creds
build_servers_creds-lookup cloud show_all n =
    (insert_creds-lookup show_all cloud.servers [] n, λ s. (refl, refl, refl))

abbrev pub is_running : TaskSummary → Bool
is_running t = t.running

abbrev pub is_well : SvcSummary → Bool
is_well s = is_healthy s.health

abbrev pub all_well : Map (List SvcHealthSummary) → Bool
all_well rows =
    all
      (λ (row : String × List SvcHealthSummary).
        all (λ (s : SvcHealthSummary). is_healthy s.health) row.1)
      rows

is_empty-append :
    {A : Type 0} (xs ys : List A) → is_empty (append xs ys) ≡ (is_empty xs && is_empty ys)
is_empty-append [] ys = refl
is_empty-append (x ∷ xs) ys = refl

is_empty-task_lines :
    (tasks : List TaskSummary) → is_empty (task_lines tasks) ≡ all is_running tasks
unfolding task_lines
is_empty-task_lines [] = refl
is_empty-task_lines (t ∷ tasks) = ground (arith, is_empty-task_lines tasks)

is_empty-service_lines :
    (server : String) (services : List SvcHealthSummary)
    → is_empty (service_lines server services)
      ≡ all (λ (s : SvcHealthSummary). is_healthy s.health) services
unfolding service_lines
is_empty-service_lines server [] = refl
is_empty-service_lines server (s ∷ services) =
    ground (arith, is_empty-service_lines server services)

is_empty-server_lines :
    (rows : Map (List SvcHealthSummary)) → is_empty (server_lines rows) ≡ all_well rows
unfolding server_lines
is_empty-server_lines [] = refl
is_empty-server_lines ((server, services) ∷ rows) =
    is_empty-append (service_lines server services) (server_lines rows)
    ∙ ground (arith, is_empty-service_lines server services, is_empty-server_lines rows)

all_well-push_service :
    (n : String) (s : SvcHealthSummary) (rows : Map (List SvcHealthSummary))
    → all_well (push_service n s rows) ≡ (is_healthy s.health && all_well rows)
unfolding push_service
all_well-push_service n s [] = ground arith
all_well-push_service n s ((m, l) ∷ rows) = ground (
  arith,
  all-append (λ (x : SvcHealthSummary). is_healthy x.health) l (s ∷ []),
  all_well-push_service n s rows,
)

all_well-push_services :
    (services : List SvcSummary) (rows : Map (List SvcHealthSummary))
    → all_well (push_services services rows) ≡ (all is_well services && all_well rows)
unfolding push_services
all_well-push_services [] rows = refl
all_well-push_services (svc ∷ services) rows =
    all_well-push_services services _
    ∙ ground (
      arith,
      all_well-push_service svc.server
          (record { service = nice_display svc.service; health = svc.health }) rows,
    )

is_empty-push_service :
    (n : String) (s : SvcHealthSummary) (rows : Map (List SvcHealthSummary))
    → is_empty (push_service n s rows) ≡ false
unfolding push_service
is_empty-push_service n s [] = refl
is_empty-push_service n s ((m, l) ∷ rows) = ground arith

is_empty-push_services :
    (services : List SvcSummary) (rows : Map (List SvcHealthSummary))
    → is_empty (push_services services rows) ≡ (is_empty services && is_empty rows)
unfolding push_services
is_empty-push_services [] rows = refl
is_empty-push_services (svc ∷ services) rows =
    is_empty-push_services services _
    ∙ ground (
      arith,
      is_empty-push_service svc.server
          (record { service = nice_display svc.service; health = svc.health }) rows,
    )

report-is_empty :
    (lines : List String) (b : Bool)
    → report lines b ≡ (
        if is_empty lines
        then (if b then "All tasks are running." else "All tasks are running. All services are Ok.")
        else join lines)
unfolding report
report-is_empty [] true = refl
report-is_empty [] false = refl
report-is_empty (l ∷ lines) b = refl

abbrev pub report_lines : List SvcSummary → List TaskSummary → List String
report_lines services tasks = append (task_lines tasks) (server_lines (push_services services []))

abbrev pub task_text : TaskSummary → String
task_text t = "Task '" ++ (t.task ++ "' has crashed.")

abbrev pub service_text : String → SvcHealthSummary → String
service_text server s =
    "Service "
    ++ (s.service ++ (" on server '" ++ (server ++ ("' is " ++ (health_text s.health ++ ".")))))

abbrev pub summary_of : SvcSummary → SvcHealthSummary
summary_of svc = record { service = nice_display svc.service; health = svc.health }

-- The number of members with a property.
abbrev pub count {ℓ} : {A : Type ℓ} → (A → Bool) → List A → ℕ
count p [] = 0
count p (x ∷ l) = (if p x then 1 else 0) + count p l

-- The tasks that do not run and the services that are not well, whose line has the property.
abbrev pub bad_tasks : (String → Bool) → List TaskSummary → ℕ
bad_tasks p tasks = count (λ (t : TaskSummary). not t.running && p (task_text t)) tasks

abbrev pub bad_services : (String → Bool) → List SvcSummary → ℕ
bad_services p services =
    count (λ (svc : SvcSummary). not (is_well svc) && p (service_text svc.server (summary_of svc)))
      services

count-append :
    (p : String → Bool) (k l : List String) → count p (append k l) ≡ count p k + count p l
count-append p [] l = omega arith
count-append p (x ∷ k) l = omega (arith, count-append p k l)

count-task_lines :
    (p : String → Bool) (tasks : List TaskSummary) → count p (task_lines tasks) ≡ bad_tasks p tasks
unfolding task_lines
count-task_lines p [] = refl
count-task_lines p (t ∷ tasks) = ground (arith, count-task_lines p tasks)

abbrev line_count : (String → Bool) → SvcHealthSummary → String → ℕ
line_count p s n = if not (is_healthy s.health) && p (service_text n s) then 1 else 0

count-service_lines :
    (p : String → Bool) (n : String) (services : List SvcHealthSummary) (s : SvcHealthSummary)
    → count p (service_lines n (append services (s ∷ [])))
      ≡ count p (service_lines n services) + line_count p s n
unfolding service_lines
count-service_lines p n [] s = ground arith
count-service_lines p n (x ∷ services) s = ground (arith, count-service_lines p n services s)

count-push_service :
    (p : String → Bool) (n : String) (s : SvcHealthSummary) (rows : Map (List SvcHealthSummary))
    → count p (server_lines (push_service n s rows))
      ≡ line_count p s n + count p (server_lines rows)
unfolding push_service server_lines
count-push_service p n s [] = unfold service_lines in ground arith
count-push_service p n s ((m, l) ∷ rows) = elim (Bool-cases (str_eq m n)) [
  | inl q ↦ rw q (
      omega (
        arith,
        count-append p (service_lines m (append l (s ∷ []))) (server_lines rows),
        count-append p (service_lines m l) (server_lines rows),
        count-service_lines p m l s,
        ap (line_count p s) ((eq_iff m n).0 q),
      ))
  | inr q ↦ rw q (
      omega (
        arith,
        count-append p (service_lines m l) (server_lines (push_service n s rows)),
        count-append p (service_lines m l) (server_lines rows),
        count-push_service p n s rows,
      ))
]

count-no_lines : (p : String → Bool) → count p (server_lines []) ≡ 0
unfolding server_lines
count-no_lines p = refl

count-push_services :
    (p : String → Bool) (services : List SvcSummary) (rows : Map (List SvcHealthSummary))
    → count p (server_lines (push_services services rows))
      ≡ bad_services p services + count p (server_lines rows)
unfolding push_services
count-push_services p [] rows = omega arith
count-push_services p (svc ∷ services) rows =
    count-push_services p services (push_service svc.server (summary_of svc) rows)
    ∙ omega (arith, count-push_service p svc.server (summary_of svc) rows)

-- The short report says that all is well exactly when each task runs and each service is healthy
-- (with no service it speaks of the tasks alone). Else its lines are those of the tasks that do
-- not run and of the services that are not well, one for each: whatever is asked of a line, as
-- many lines have it as there are such tasks and services whose line has it.
pub get_summary-short :
    (services : List SvcSummary) (tasks : List TaskSummary)
    → (get_summary services tasks false
        ≡ short (
            if all is_running tasks && all is_well services
            then (if is_empty services
                then "All tasks are running."
                else "All tasks are running. All services are Ok.")
            else join (report_lines services tasks)))
      × ((p : String → Bool)
          → count p (report_lines services tasks) ≡ bad_tasks p tasks + bad_services p services)
unfolding get_summary humanize_status_report
get_summary-short services tasks =
    let rows = push_services services [] in
    let empty : is_empty (report_lines services tasks)
        ≡ (all is_running tasks && all is_well services) =
      is_empty-append (task_lines tasks) (server_lines rows)
      ∙ ground (
        arith,
        is_empty-task_lines tasks,
        is_empty-server_lines rows,
        all_well-push_services services [],
      ) in
    (
      ap short (
          report-is_empty (report_lines services tasks) (is_empty rows)
          ∙ ground (arith, empty, is_empty-push_services services [])),
      λ p. omega (
        arith,
        count-append p (task_lines tasks) (server_lines rows),
        count-task_lines p tasks,
        count-push_services p services [],
        count-no_lines p,
      ),
    )
