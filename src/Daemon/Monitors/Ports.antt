-- ===== src/Daemon/Monitors/Ports.antt =====
-- The ports at which the monitors test Xray (`atomic_port`, src/daemon/core.rs).
pub mod Started
use xcplane.Common.{
  ℕ, ◌+◌, ◌^◌, ◌%◌, ◌<◌, ◌≤◌, String, Bool, true, not, Option, none, some, List, [], ◌∷◌, ◌++◌,
  Outcome, ok, err, is_empty, str_eq, if◌then◌else◌, ◌>>=◌, All, Distinct, nat_eqb, nat_eq,
  Outcome-cases, ok-injective, >>=-eq-ok,
}
use xcplane.Server.{Inbound, KetServer, Cloud}
use xcplane.Server.Kind.{SvcKind, ssh, nginx, xray, super_name, super_xray, svc_kind_eqb}
use xcplane.Server.Methods.{get_jsub}
use xcplane.Daemon.{
  SvcInfo, TaskEntry, ssh_monitor, nginx_monitor, xray_monitor, aggregator, xui_db_pruner,
  acme_checker, TaskMap,
}
use xcplane.Daemon.Monitors.{
  Registry, StartError, no_link, no_client, ssh_info, nginx_info, xray_info, port_of, start_inbound,
  start_inbounds, start_server, start_servers, prod_servers, start_monitors,
}

-- The port of the monitor of an inbound other than the supervisor.
entry_ports : TaskEntry → List ℕ
entry_ports (xray_monitor i) = if svc_kind_eqb i.kind super_xray then [] else i.port ∷ []
entry_ports _ = []

unfoldable pub ports : TaskMap → List ℕ
unfolding entry_ports
ports [] = []
ports ((e, h) ∷ m) = entry_ports e ++ ports m

-- The number of these monitors for a server, and for a list of servers.
abbrev pub own_inbounds : List Inbound → ℕ
own_inbounds [] = 0
own_inbounds (inb ∷ l) = (if str_eq inb.name super_name then 0 else 1) + own_inbounds l

abbrev pub all_inbounds : List KetServer → ℕ
all_inbounds [] = 0
all_inbounds (s ∷ l) = own_inbounds s.inbounds + all_inbounds l

-- The ports are different and below the counter.
record IsNumbered (r : Registry) : Type 0 where
  different : Distinct (ports r.tasks)
  below : All (λ p. p < r.port) (ports r.tasks)
