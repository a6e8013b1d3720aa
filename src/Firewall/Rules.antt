-- ===== src/Firewall/Rules.antt =====
-- The ports that the rules of src/nft.rs open.
use xcplane.Common.{
  ℕ, not, some, List, [], ◌∷◌, ok, nat_eqb, nat_eqb_iff, nat_eq, contains, any, ◌&&◌, ◌||◌, ◌≡◌,
  refl, arith, Distinct, Bool-cases, inl, inr,
}
use xcplane.Server.{Inbound, KetServer, AnsibleConn}
use xcplane.Firewall.{
  Sources, rule_of, set_name, ssh_pre, ssh_post, inbound, ports, pre_ports, open_ports,
  generate_ssh_rule, generate_inbound_rule,
}

pre_ports-contains : (a s p : ℕ) → contains (pre_ports a s) p ≡ (nat_eqb a p || nat_eqb s p)
unfolding pre_ports
pre_ports-contains a s p = ground (arith, nat_eqb_iff a s)

pre_ports-Distinct : (a s : ℕ) → Distinct (pre_ports a s)
unfolding pre_ports
pre_ports-Distinct a s = elim (Bool-cases (nat_eqb a s)) [
  | inl p ↦ rw p (refl, tt)
  | inr p ↦ rw p (ground (arith, p, nat_eqb_iff a s, nat_eqb_iff s a), (refl, tt))
]

-- The transient rule and the final one are rules of the set `ssh`. With a connection on a port, the
-- transient one opens that port and the SSH port, each once, and no other; the final one the SSH
-- port alone.
generate_ssh_rule-ports :
    (s : KetServer) {conn : AnsibleConn} {port : ℕ}
    → s.ansible_conn ≡ some conn
    → conn.ansible_port ≡ some port
    → (opened : List ℕ) × (generate_ssh_rule (ssh_pre s)
        ≡ ok (record { name = "ssh"; elements = ports opened }))
      × ((p : ℕ) → contains opened p ≡ (nat_eqb port p || nat_eqb s.ssh_port p))
      × Distinct opened
      × (generate_ssh_rule (ssh_post s)
          ≡ ok (record { name = "ssh"; elements = ports (s.ssh_port ∷ []) }))
unfolding generate_ssh_rule
generate_ssh_rule-ports s {conn} {port} c q = (
  pre_ports port s.ssh_port,
  rw (c, q) refl,
  pre_ports-contains port s.ssh_port,
  pre_ports-Distinct port s.ssh_port,
  refl,
)

open_ports-contains :
    (inbounds : List Inbound) (p : ℕ)
    → contains (open_ports inbounds) p
      ≡ (not (nat_eqb p 0) && any (λ (i : Inbound). nat_eqb i.port p) inbounds)
unfolding open_ports
open_ports-contains [] p = ground arith
open_ports-contains (i ∷ inbounds) p =
    ground (arith, nat_eqb_iff i.port p, open_ports-contains inbounds p)

-- The rule of a server's inbounds opens exactly the ports of its inbounds, but never port 0.
generate_inbound_rule-ports :
    (s : KetServer)
    → (opened : List ℕ) × (generate_inbound_rule (inbound s)
        ≡ ok (record { name = "inbound"; elements = ports opened }))
      × ((p : ℕ)
          → contains opened p
            ≡ (not (nat_eqb p 0) && any (λ (i : Inbound). nat_eqb i.port p) s.inbounds))
unfolding generate_inbound_rule set_name
generate_inbound_rule-ports s = (open_ports s.inbounds, refl, open_ports-contains s.inbounds)

-- The rules that are written for a server with a connection on a port. The transient SSH rule opens
-- that port and the SSH port, the final one the SSH port alone, both in the set `ssh`; the rule of
-- the inbounds opens exactly their ports, but never port 0.
pub rule_of-ports :
    (src : Sources) (s : KetServer) {conn : AnsibleConn} {port : ℕ}
    → s.ansible_conn ≡ some conn
    → conn.ansible_port ≡ some port
    → (transient opened : List ℕ) × (rule_of src (ssh_pre s)
        ≡ ok (record { name = "ssh"; elements = ports transient }))
      × ((p : ℕ) → contains transient p ≡ (nat_eqb port p || nat_eqb s.ssh_port p))
      × Distinct transient
      × (rule_of src (ssh_post s)
          ≡ ok (record { name = "ssh"; elements = ports (s.ssh_port ∷ []) }))
      × (rule_of src (inbound s) ≡ ok (record { name = "inbound"; elements = ports opened }))
      × ((p : ℕ)
          → contains opened p
            ≡ (not (nat_eqb p 0) && any (λ (i : Inbound). nat_eqb i.port p) s.inbounds))
unfolding rule_of
rule_of-ports src s c q =
    let (transient, pre, both, once, post) = generate_ssh_rule-ports s c q in
    let (opened, rule, open_all) = generate_inbound_rule-ports s in
    (transient, opened, pre, both, once, post, rule, open_all)
