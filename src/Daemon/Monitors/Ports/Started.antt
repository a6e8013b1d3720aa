-- ===== src/Daemon/Monitors/Ports/Started.antt =====
-- The ports that the monitors of a cycle are given (src/daemon/core.rs).
use xcplane.Common.{
  Option, ℕ, ◌+◌, ◌^◌, ◌<◌, String, false, [], ◌∷◌, str_eq, nat_eq, ◌≡◌, refl, arith,
}
use xcplane.Server.{Inbound, KetServer}
use xcplane.Server.Kind.{super_name}
use xcplane.Daemon.{xray_monitor}
use xcplane.Daemon.Monitors.{Registry, watch, xray_info, port_of}
use xcplane.Daemon.Monitors.Ports.{entry_ports, IsNumbered}

abbrev HasStarted : Registry → ℕ → Registry → Type 0
HasStarted r n r' = IsNumbered r' × (r'.port ≡ r.port + n)

HasStarted-next :
    (r t u : Registry) (m n : ℕ) → HasStarted r m t → HasStarted t n u → HasStarted r (m + n) u
HasStarted-next r t u m n (a, p) (b, q) = (b, omega arith)

module _ (parse_url : String → Option String) where
  -- The registry after the monitor of an inbound.
  numbered : KetServer → Inbound → Registry → Registry
  unfolding port_of
  numbered s inb r =
      watch (xray_monitor (xray_info parse_url s inb (port_of inb r.port).0))
        (record r { port = (port_of inb r.port).1 })

  inbound_ports :
      (s : KetServer) (inb : Inbound) (counter : ℕ)
      → str_eq inb.name super_name ≡ false
      → counter + 1 < 2 ^ 16
      → (entry_ports (xray_monitor (xray_info parse_url s inb (port_of inb counter).0))
          ≡ counter ∷ [])
        × ((port_of inb counter).1 ≡ counter + 1)
  unfolding port_of entry_ports xray_info
  inbound_ports s inb counter h small = rw h (refl, omega arith)
