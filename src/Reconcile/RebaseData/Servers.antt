-- ===== src/Reconcile/RebaseData/Servers.antt =====
-- The loop of `create_rebase_data` of src/cloud/reconcile.rs over the servers.
use xcplane.Common.{
  String, Bool, true, none, some, List, ◌∷◌, Map, or_insert, ok, err, ◌≡◌, refl, string_eq,
  >>=-eq-ok,
}
use xcplane.Server.{KetServer, Cloud}
use xcplane.Reconcile.RebaseData.{
  RebaseData, Carried, compare_server, server_named, data_of, rebase_data_loop, create_rebase_data,
  rebase_domains, no_rebase_domain,
}
use xcplane.Reconcile.RebaseData.Inbounds.{all_allowed, removed_of, added_of}

-- One iteration over a server that the new cloud has.
loop_step :
    (forced : Bool) (curr new : Cloud) (names : String → List String) (n : String)
    (order : List String) (carried : Carried) (table : Map RebaseData) (b : KetServer)
    {result : Map RebaseData}
    → server_named n new.servers ≡ some b
    → rebase_data_loop forced curr new names (n ∷ order) carried table ≡ ok result
    → (after : Carried) × (entry : RebaseData) × (compare_server forced
          (names n)
          (server_named n curr.servers)
          b
          carried
        ≡ ok after)
      × (data_of after ≡ ok entry)
      × (rebase_data_loop forced curr new names order after (or_insert n entry table) ≡ ok result)
unfolding rebase_data_loop
loop_step forced curr new names n order carried table b {result} hb h =
    let (after, e, rest) =
      >>=-eq-ok (compare_server forced (names n) (server_named n curr.servers) b carried) _
        (rw (hb, rebase_data_loop) at h) in
    let (entry, f, last) = >>=-eq-ok (data_of after) _ rest in (after, entry, e, f, last)

-- The entry of a server that both clouds have is the comparison of the two.
pub record IsComparison (forced : Bool) (curr new : KetServer) (names : List String)
    (entry : RebaseData) : Type 0 where
  pub allowed : all_allowed forced curr new names ≡ true
  pub removed : removed_of curr new names ≡ entry.removed_inbounds
  pub added : added_of curr new names ≡ entry.added_inbounds
  pub domains : rebase_domains curr new ≡ ok entry.rebase_domain

-- A comparison that meets a server of the new cloud first that the old one has not is an error.
pub create_rebase_data-added :
    (curr new : Cloud) (forced : Bool) (order : List String) (names : String → List String)
    (n : String) (b : KetServer)
    → server_named n curr.servers ≡ none
    → server_named n new.servers ≡ some b
    → create_rebase_data curr new forced (n ∷ order) names ≡ err no_rebase_domain
unfolding create_rebase_data rebase_data_loop compare_server data_of
create_rebase_data-added curr new forced order names n b ha hb =
    rw (hb, rebase_data_loop) (rw ha refl)
