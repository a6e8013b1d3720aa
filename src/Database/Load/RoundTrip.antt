-- ===== src/Database/Load/RoundTrip.antt =====
-- What `load_cloud` (src/db.rs) reads of the tables that `update_db` writes.
use xcplane.Common.{
  ◌^◌, String, true, Option, none, some, List, [], ◌∷◌, Outcome, contains, map, string_eq, pair_eq,
  map_option, lookup, is_some, str_eq, eq_iff, if◌then◌else◌, ◌≡◌, refl, arith, Bool-cases, inl,
  inr, Option-cases, subst, sym, ap, ◌∙◌, Distinct, all, All,
}
use xcplane.Server.{KetServer, Cloud}
use xcplane.Server.Methods.{root_user}
use xcplane.Database.{InboundRow, Db, DbError, done}
use xcplane.Database.Tables.{Table, get}
use xcplane.Database.Update.{to_row, name_of, group_name, update_db}
use xcplane.Database.Update.Rows.{last_group}
use xcplane.Database.Update.Groups.{group_row}
use xcplane.Database.Update.Stored.{IsLinked, Stored, update_db-Stored}
use xcplane.Database.Load.{load_inbound, load_server, load_cloud}
use xcplane.Reconcile.Cloud.{last_named}
use xcplane.Database.Load.Rows.{
  find_server, find_inbound, find-load_servers, find-load_inbounds, lookup-load_subids, fits_server,
  small, last_inbound, load-last_group, subid-last_group, last_group-none, is_some-last_inbound,
}

-- The server that is loaded for `s`: the runtime states are new, and the groups are found again.
pub record Loaded (s s' : KetServer) : Type 0 where
  pub fields :
      record s {
        ansible_conn = some (record {
          ansible_host = some s.ip;
          ansible_port = some s.ssh_port;
          ansible_user = some root_user;
          ansible_connection = none;
        });
        cfstate = none;
        inbounds = s'.inbounds;
        secrets = record s.secrets { mother_subids = s'.secrets.mother_subids };
      }
      ≡ s'
  pub inbounds : (g : String) → find_inbound g s'.inbounds ≡ last_inbound g s.inbounds
  pub subids :
      (g : String)
      → lookup g s'.secrets.mother_subids ≡ (
          if contains (map group_name s.inbounds) g then lookup g s.secrets.mother_subids else none)

pub LoadedAs : Option KetServer → Option KetServer → Type 0
LoadedAs none o = o ≡ none
LoadedAs (some s) o = (s' : KetServer) × (o ≡ some s') × Loaded s s'

row-Loaded :
    (s : KetServer) (t : Table (String × String) InboundRow)
    → ((g : String) → get (s.name, g) t ≡ last_group s g s.inbounds)
    → ((g : String) → is_some (last_group s g s.inbounds) ≡ contains (map group_name s.inbounds) g)
    → fits_server s ≡ true
    → Loaded s (load_server t s.name (to_row s))
unfolding load_server to_row
row-Loaded s t rows all h = record {
  fields =
      rw (small (2 ^ 16) s.quota (ground arith), small (2 ^ 16) s.ssh_port (ground arith)) refl;
  inbounds = λ g.
      find-load_inbounds s.name g t
      ∙ ap (map_option (load_inbound g)) (rows g)
      ∙ elim (Option-cases (lookup g s.secrets.mother_subids)) [
        | inl p ↦
            ground
              (arith, last_group-none s g s.inbounds p, all g, is_some-last_inbound g s.inbounds)
        | inr (subid, p) ↦ load-last_group s g subid s.inbounds p (ground (arith, h))
      ];
  subids = λ g.
      lookup-load_subids s.name g t []
      ∙ ap (map_option (λ (r : InboundRow). r.mother_subid)) (rows g)
      ∙ elim (Option-cases (lookup g s.secrets.mother_subids)) [
        | inl p ↦ ground (arith, last_group-none s g s.inbounds p, all g, p)
        | inr (subid, p) ↦
            subid-last_group s g subid s.inbounds p
            ∙ ap (λ o. if contains (map group_name s.inbounds) g then o else none) (sym p)
      ];
}

last_named-All :
    (P : KetServer → Type 0) (n : String) (l : List KetServer) {s : KetServer}
    → All P l
    → last_named n l ≡ some s
    → P s × (s.name ≡ n)
unfolding last_named
last_named-All P n [] f h = cc
last_named-All P n (x ∷ l) {s} f h = elim (Option-cases (last_named n l)) [
  | inl p ↦ elim (Bool-cases (str_eq x.name n)) [
    | inl e ↦
        let same : some x ≡ some s = (rw (p, e) at h) in
        let xs : x ≡ s = cc in
        (subst P xs f.0, sym (ap (λ (t : KetServer). t.name) xs) ∙ (eq_iff x.name n).0 e)
    | inr e ↦ let absurd : none ≡ some s = (rw (p, e) at h) in cc
  ]
  | inr (y, p) ↦ last_named-All P n l f.1 (p ∙ (rw p at h))
]

-- The server under a name in the tables that hold the cloud.
Stored-LoadedAs :
    {config : String} (cloud : Cloud) {db : Db} (db' : Db)
    → Stored config cloud db db'
    → All (λ s. fits_server s ≡ true) cloud.servers
    → (n : String) (o : Option KetServer) → last_named n cloud.servers ≡ o
    → LoadedAs o (map_option (load_server db'.inbounds n) (map_option to_row o))
unfolding LoadedAs
Stored-LoadedAs cloud db' stored fits n none e = refl
Stored-LoadedAs cloud db' stored fits n (some s) e =
    let (fit, name) = last_named-All (λ s. fits_server s ≡ true) n cloud.servers fits e in
    let rows : (g : String) → get (s.name, g) db'.inbounds ≡ last_group s g s.inbounds = λ g.
      ap (λ m. get (m, g) db'.inbounds) name
      ∙ stored.inbounds n g
      ∙ ap (λ o. group_row o g none) e in
    (
      load_server db'.inbounds n (to_row s),
      refl,
      subst (λ m. Loaded s (load_server db'.inbounds m (to_row s))) name
          (row-Loaded s db'.inbounds rows (stored.all n e) fit),
    )

-- What an `update_db` that succeeds has stored is loaded again: under each name the server that the
-- cloud has, with its groups and their sub-IDs, and no other server; and the settings.
pub load_cloud-update_db :
    (file : Outcome DbError String) (cloud : Cloud) (db : Db) {db' : Db}
    → Distinct (map name_of cloud.servers)
    → IsLinked db
    → All (λ s. fits_server s ≡ true) cloud.servers
    → update_db file cloud db ≡ done db'
    → ((load_cloud db').settings ≡ cloud.settings)
      × ((n : String)
          → LoadedAs (last_named n cloud.servers) (find_server n (load_cloud db').servers))
unfolding load_cloud LoadedAs
load_cloud-update_db file cloud db {db'} d l fits h =
    let (config, read, stored, linked) = update_db-Stored file cloud db d l h in
    (
      stored.settings_stored,
      λ n.
          subst (LoadedAs (last_named n cloud.servers))
            (sym (
              find-load_servers n db'.inbounds db'.servers
              ∙ ap (map_option (load_server db'.inbounds n)) (stored.servers n)))
            (Stored-LoadedAs cloud db' stored fits n (last_named n cloud.servers) refl),
    )
