-- ===== src/Reconcile/RebaseData.antt =====
-- src/cloud/reconcile.rs: `RebaseData`, `RebaseDomain`, `create_rebase_data`. A `HashMap` whose
-- entries come from a list by `entry().or_insert()` is a search for the first element of a name.
-- The order in which a `HashMap` or a `HashSet` is walked is an argument: `order` for the names of
-- the new servers, `names` for the inbound names of a server.
pub mod Inbounds
pub mod Servers
use xcplane.Common.{
  String, Bool, true, false, not, Option, none, some, List, [], ◌∷◌, ◌++◌, Map, or_insert, Outcome,
  ok, err, ok_or, find?, str_eq, ◌>>=◌, ◌>>◌, if◌then◌else◌, ◌==◌, ◌&&◌, ensure,
}
use xcplane.Server.{Inbound, inbound_eq, inbound_eqb, KetServer, Cloud, cloudflare_compatible}
use xcplane.Server.Methods.{dnshostname, uihostname, subhostname}

pub record RebaseDomain : Type 0 where
  pub zone : Option String
  pub dns : Option String
  pub ui : Option String
  pub sub : Option String

pub record RebaseData : Type 0 where
  pub removed_inbounds : List Inbound
  pub added_inbounds : List Inbound
  pub rebase_domain : RebaseDomain

pub data RebaseError : Type 0 where
  tls_subhostname inbound_modified : String → String → RebaseError
  force_needed : String → RebaseError
  no_cfstate no_rebase_domain : RebaseError

unfoldable pub server_named : String → List KetServer → Option KetServer
server_named n l = find? (λ (s : KetServer). str_eq s.name n) l

unfoldable pub inbound_named : String → List Inbound → Option Inbound
inbound_named n l = find? (λ (inb : Inbound). str_eq inb.name n) l

-- `VlessGrpcTls | VlessWsTls | VlessXhttpTls`
unfoldable pub is_tls : Inbound → Bool
unfolding cloudflare_compatible
is_tls inb = cloudflare_compatible inb.kind

-- The variables `removed_inbounds` and `added_inbounds`.
pub record Changes : Type 0 where
  pub removed : List Inbound
  pub added : List Inbound

check_tls : KetServer → KetServer → Inbound → Bool → Outcome RebaseError (Unit {0})
unfolding subhostname
check_tls curr new inb true =
    ensure (str_eq (subhostname curr) (subhostname new)) (tls_subhostname inb.name curr.name)
check_tls curr new inb false = ok tt

-- The match on one name.
diff_inbound :
    Bool
    → KetServer
    → KetServer
    → Option Inbound
    → Option Inbound
    → Changes
    → Outcome RebaseError Changes
unfolding check_tls is_tls
diff_inbound forced curr new (some a) (some b) c =
    if inbound_eqb a b
    then check_tls curr new a (is_tls a) >> ok c
    else err (inbound_modified new.name b.name)
diff_inbound true curr new (some a) none c = ok (record c { removed = c.removed ++ a ∷ [] })
diff_inbound false curr new (some a) none c = err (force_needed new.name)
diff_inbound forced curr new none (some b) c = ok (record c { added = c.added ++ b ∷ [] })
diff_inbound forced curr new none none c = ok c

unfoldable pub diff_inbounds :
    Bool → KetServer → KetServer → List String → Changes → Outcome RebaseError Changes
unfolding diff_inbound inbound_named
diff_inbounds forced curr new [] c = ok c
diff_inbounds forced curr new (n ∷ names) c =
    diff_inbound forced curr new (inbound_named n curr.inbounds) (inbound_named n new.inbounds) c
    >>= diff_inbounds forced curr new names

-- The old hostname, where the subdomain or the domain changes.
unfoldable pub old_hostname : Bool → Bool → String → Option String
old_hostname same_domain same_subdomain hostname =
    if same_domain && same_subdomain then none else some hostname

unfoldable pub dns_rebase : KetServer → KetServer → Option String
unfolding old_hostname dnshostname
dns_rebase curr new =
    old_hostname (str_eq new.domain curr.domain) (str_eq new.dns_subdomain curr.dns_subdomain)
      (dnshostname curr)

unfoldable pub ui_rebase : KetServer → KetServer → Option String
unfolding old_hostname uihostname
ui_rebase curr new =
    old_hostname (str_eq new.domain curr.domain) (str_eq new.ui_subdomain curr.ui_subdomain)
      (uihostname curr)

unfoldable pub sub_rebase : KetServer → KetServer → Option String
unfolding old_hostname subhostname
sub_rebase curr new =
    old_hostname (str_eq new.domain curr.domain) (str_eq new.sub_subdomain curr.sub_subdomain)
      (subhostname curr)

-- The zone is needed when there is a hostname to delete.
zone_rebase :
    KetServer → Option String → Option String → Option String → Outcome RebaseError (Option String)
zone_rebase curr none none none = ok none
zone_rebase curr dns ui sub = do
  cfstate ← ok_or curr.cfstate no_cfstate
  ok (some cfstate.zone_name)

unfoldable pub rebase_domains : KetServer → KetServer → Outcome RebaseError RebaseDomain
unfolding zone_rebase dns_rebase ui_rebase sub_rebase
rebase_domains curr new = do
  zone ← zone_rebase curr (dns_rebase curr new) (ui_rebase curr new) (sub_rebase curr new)
  ok (record {
    zone = zone;
    dns = dns_rebase curr new;
    ui = ui_rebase curr new;
    sub = sub_rebase curr new;
  })

-- The variables that outlive an iteration of the loop over the new servers.
pub record Carried : Type 0 where
  pub changes : Changes
  pub domains : Option RebaseDomain

-- The body of `if let Some(curr_server)`; a server that the old cloud has not leaves the variables
-- as the iteration before left them.
unfoldable pub compare_server :
    Bool → List String → Option KetServer → KetServer → Carried → Outcome RebaseError Carried
unfolding diff_inbounds rebase_domains
compare_server forced names none new carried = ok carried
compare_server forced names (some curr) new carried = do
  changes ← diff_inbounds forced curr new names (record { removed = []; added = [] })
  domains ← rebase_domains curr new
  ok (record { changes = changes; domains = some domains })

unfoldable pub data_of : Carried → Outcome RebaseError RebaseData
data_of carried = do
  domains ← ok_or carried.domains no_rebase_domain
  ok (record {
    removed_inbounds = carried.changes.removed;
    added_inbounds = carried.changes.added;
    rebase_domain = domains;
  })

-- The loop over the names of the new servers.
unfoldable pub rebase_data_loop :
    Bool
    → Cloud
    → Cloud
    → (String → List String)
    → List String
    → Carried
    → Map RebaseData
    → Outcome RebaseError (Map RebaseData)
unfolding server_named compare_server data_of
rebase_data_loop forced curr new names [] carried table = ok table
rebase_data_loop forced curr new names (n ∷ order) carried table =
    elim (server_named n new.servers) [
      | none ↦ rebase_data_loop forced curr new names order carried table
      | some server ↦
          compare_server forced (names n) (server_named n curr.servers) server carried >>= λ after.
          data_of after >>= λ entry.
          rebase_data_loop forced curr new names order after (or_insert n entry table)
    ]

unfoldable pub create_rebase_data :
    Cloud
    → Cloud
    → Bool
    → List String
    → (String → List String)
    → Outcome RebaseError (Map RebaseData)
unfolding rebase_data_loop
create_rebase_data curr new forced order names =
    rebase_data_loop forced curr new names order
      (record { changes = record { removed = []; added = [] }; domains = none }) []
