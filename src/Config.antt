-- ===== src/Config.antt =====
-- src/cloud.rs: `parse_cloud_config`, from the deserialized file on. Reading the file and `toml`
-- are left out: the input is what they give, the servers and the settings of the file.
pub mod Steps
pub mod Inbounds
pub mod Servers
pub mod Accepted
use xcplane.Common.{
  ℕ, String, Bool, true, false, not, List, [], ◌∷◌, ◌++◌, Outcome, ok, err, ensure, insert_new,
  contains, is_empty, map, ◌>>=◌, ◌>>◌, ltb, if◌then◌else◌, string_eq, nat_eq, is_subset, pair_eq,
}
use xcplane.Ip.{IpAddr, ip_eq, is_global}
use xcplane.Server.{Inbound, KetServer, Cloud, CloudSettings}
use xcplane.Server.Draws.{Draws}
use Steps.{
  ConfigError, empty_inbound_set, SetNames, no_names, add_set_inbounds, add_ports, reserved_ports,
  reserved_name, reserved_port, Seen, nothing_seen, check_server, min_mon_interval,
}
use xcplane.Server.Kind.{super_name}

module _ (digest16 : String → String) (draws : ℕ → Draws) where
  -- The loop over the servers, the `i`-th with its own random texts.
  unfoldable pub check_servers :
      List Inbound
      → List (String × ℕ)
      → ℕ
      → Seen
      → List KetServer
      → Outcome ConfigError (List KetServer)
  unfolding check_server
  check_servers set nps i seen [] = ok []
  check_servers set nps i seen (s ∷ rest) = check_server digest16 (draws i) set nps seen s >>= λ r.
      check_servers set nps (ℕ.suc i) r.1 rest >>= λ checked. ok (r.0 ∷ checked)

  unfoldable pub parse_cloud_config : List KetServer → CloudSettings → Outcome ConfigError Cloud
  unfolding check_servers add_set_inbounds add_ports
  parse_cloud_config servers settings = do
    ensure (not (is_empty settings.inbound_set)) empty_inbound_set
    found ← add_set_inbounds no_names settings.inbound_set
    names ← insert_new super_name found.names reserved_name
    ports ← add_ports reserved_port found.ports reserved_ports
    checked ← check_servers settings.inbound_set found.pairs 0 nothing_seen servers
    ok (record {
      servers = checked;
      settings = record settings {
        monitor_interval =
            if ltb settings.monitor_interval min_mon_interval
            then min_mon_interval
            else settings.monitor_interval;
      };
    })
