-- ===== src/Reconcile/Merge.antt =====
-- src/cloud/reconcile.rs: `reload_merge`, `remap_merge`, `rebase_merge`.
pub mod Laws
use xcplane.Common.{
  ℕ, String, Bool, true, false, not, Option, none, some, List, [], ◌∷◌, Map, or_insert, Outcome, ok,
  err, ok_or, is_subset, map, retain, str_eq, string_eq, nat_eq, pair_eq, ◌>>=◌, if◌then◌else◌,
}
use xcplane.Server.{ServerState, offgrid, production, Inbound, Secrets, AnsibleConn, KetServer}
use xcplane.Server.Kind.{super_name}
use xcplane.Config.Inbounds.{inbound_pair}
use xcplane.Cloudflare.{CfError}

pub data ReconMode : Type 0 where
  reload remap rebase : ReconMode

pub data ReconError : Type 0 where
  domain_in_use ip_in_use inbounds_missing not_provisioned : String → ReconError
  no_new_conn no_old_conn unreachable_pair no_rebase_data no_cfstate unmatched : ReconError
  cannot_remove_dir : String → ReconError
  cf_failed : CfError → ReconError
  run_failed : String → ReconError

-- The (name, port) pairs of a server without its super inbound.
unfoldable pub server_inbounds : KetServer → List (String × ℕ)
server_inbounds s = map inbound_pair (retain (λ inb. not (str_eq inb.name super_name)) s.inbounds)

reload_keep : KetServer → KetServer → List (String × ℕ) → Outcome ReconError KetServer
unfolding server_inbounds
reload_keep old new set =
    if is_subset (server_inbounds old) set
    then ok (record old { enabled = new.enabled })
    else err (inbounds_missing old.name)

reload_cases :
    ServerState
    → ServerState
    → KetServer
    → KetServer
    → List (String × ℕ)
    → Outcome ReconError KetServer
unfolding reload_keep
reload_cases offgrid offgrid old new set = ok new
reload_cases offgrid production old new set = reload_keep old new set
reload_cases production offgrid old new set = reload_keep old new set
reload_cases production production old new set = reload_keep old new set

unfoldable pub reload_merge :
    KetServer → KetServer → List (String × ℕ) → Outcome ReconError KetServer
unfolding reload_cases
reload_merge old new set = reload_cases old.state new.state old new set

unfoldable pub remap_merge : KetServer → KetServer → KetServer
remap_merge old new = record new { secrets = old.secrets }

-- The loop over the new mother sub-IDs.
unfoldable pub merge_subids : Map String → Map String → Map String
merge_subids subids [] = subids
merge_subids subids ((inb, subid) ∷ rest) = merge_subids (or_insert inb subid subids) rest

unfoldable pub rebase_secrets : Secrets → Secrets → Secrets
unfolding merge_subids
rebase_secrets old new = record old {
  health_path = new.health_path;
  mother_subids = merge_subids old.mother_subids new.mother_subids;
}

-- The branch of an enabled Production server.
rebase_production : KetServer → KetServer → Outcome ReconError KetServer
unfolding rebase_secrets
rebase_production old new = do
  new_conn ← ok_or new.ansible_conn no_new_conn
  old_conn ← ok_or old.ansible_conn no_old_conn
  ok (record new {
    secrets = rebase_secrets old.secrets new.secrets;
    ansible_conn = some (record old_conn { ansible_host = new_conn.ansible_host });
  })

rebase_cases :
    Bool → ServerState → ServerState → KetServer → KetServer → Outcome ReconError KetServer
unfolding rebase_production remap_merge
rebase_cases true production production old new = rebase_production old new
rebase_cases false production production old new = ok (record old { enabled = false })
rebase_cases enabled offgrid offgrid old new = ok (remap_merge old new)
rebase_cases enabled production offgrid old new = ok (remap_merge old new)
rebase_cases enabled offgrid production old new = err (not_provisioned old.name)

unfoldable pub rebase_merge : KetServer → KetServer → Outcome ReconError KetServer
unfolding rebase_cases
rebase_merge old new = rebase_cases new.enabled old.state new.state old new

unfoldable pub merge_server :
    ReconMode → KetServer → KetServer → List (String × ℕ) → Outcome ReconError KetServer
unfolding reload_merge remap_merge rebase_merge
merge_server reload old new set = reload_merge old new set
merge_server remap old new set = ok (remap_merge old new)
merge_server rebase old new set = rebase_merge old new
