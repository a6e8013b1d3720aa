-- ===== src/Database/Update/Stored.antt =====
-- What a successful `update_db` (src/db.rs) leaves in the database.
use xcplane.Common.{
  String, Bool, false, Option, none, some, List, [], ◌∷◌, Outcome, ok, err, contains, map,
  string_eq, pair_eq, map_option, is_some, if◌then◌else◌, ◌≡◌, refl, arith, inl, inr, Option-cases,
  sym, ap, ◌∙◌, Distinct,
}
use xcplane.Server.{KetServer, Cloud}
use xcplane.Server.Methods.{svc_kinds_string}
use xcplane.Database.{StatRow, Db, DbError, done}
use xcplane.Database.Tables.{get}
use xcplane.Database.Tables.Laws.{get-keep_rows}
use xcplane.Database.Update.{
  to_row, group_name, name_of, delete_servers, retain_servers, put_options, update_db,
}
use xcplane.Database.Update.Rows.{get-put_servers, last_group, stat_of}
use xcplane.Database.Update.Groups.{group_row, put_groups-PutGroups, is_some-last_named}
use xcplane.Reconcile.Cloud.{last_named}

-- The foreign keys: a row of the other tables belongs to a server.
pub record IsLinked (db : Db) : Type 0 where
  pub inbounds : (n g : String) → get n db.servers ≡ none → get (n, g) db.inbounds ≡ none
  pub stats : (n k : String) → get n db.servers ≡ none → get (n, k) db.stats ≡ none

-- The row of a service: of a server of the cloud the old one or a fresh one, of another none.
abbrev pub kept_stat : Option KetServer → String → Option StatRow → Option StatRow
kept_stat none k old = none
kept_stat (some s) k old = stat_of (svc_kinds_string s) k old

-- The database is what the cloud and the config file say.
pub record Stored (config : String) (cloud : Cloud) (db db' : Db) : Type 0 where
  pub config_stored : db'.cloud_config ≡ config
  pub settings_stored : db'.settings ≡ cloud.settings
  pub servers : (n : String) → get n db'.servers ≡ map_option to_row (last_named n cloud.servers)
  pub inbounds :
      (n g : String) → get (n, g) db'.inbounds ≡ group_row (last_named n cloud.servers) g none
  pub stats :
      (n k : String)
      → get (n, k) db'.stats ≡ kept_stat (last_named n cloud.servers) k (get (n, k) db.stats)
  pub all :
      (n : String) {s : KetServer}
      → last_named n cloud.servers ≡ some s
      → (g : String) → is_some (last_group s g s.inbounds) ≡ contains (map group_name s.inbounds) g

module _ (keep : String → Bool) (db : Db) where
  delete-servers :
      (n : String)
      → get n (delete_servers keep db).servers ≡ (if keep n then get n db.servers else none)
  unfolding delete_servers
  delete-servers n = get-keep_rows keep n db.servers

  delete-inbounds :
      IsLinked db
      → (n g : String)
      → get (n, g) (delete_servers keep db).inbounds
        ≡ (if keep n then get (n, g) db.inbounds else none)
  unfolding delete_servers
  delete-inbounds h n g =
      get-keep_rows _ (n, g) db.inbounds ∙ elim (Option-cases (get n db.servers)) [
        | inl p ↦ rw (p, h.inbounds n g p) (ground arith)
        | inr (r, p) ↦ rw p (ground arith)
      ]

  delete-stats :
      IsLinked db
      → (n k : String)
      → get (n, k) (delete_servers keep db).stats ≡ (if keep n then get (n, k) db.stats else none)
  unfolding delete_servers
  delete-stats h n k = get-keep_rows _ (n, k) db.stats ∙ elim (Option-cases (get n db.servers)) [
    | inl p ↦ rw (p, h.stats n k p) (ground arith)
    | inr (r, p) ↦ rw p (ground arith)
  ]

-- The servers outside the list are deleted, with their rows in the other tables.
record Retained (names : List String) (db db' : Db) : Type 0 where
  same : record db { servers = db'.servers; inbounds = db'.inbounds; stats = db'.stats } ≡ db'
  servers : (n : String) → get n db'.servers ≡ (if contains names n then get n db.servers else none)
  inbounds :
      (n g : String)
      → get (n, g) db'.inbounds ≡ (if contains names n then get (n, g) db.inbounds else none)
  stats :
      (n k : String)
      → get (n, k) db'.stats ≡ (if contains names n then get (n, k) db.stats else none)

retain_servers-Retained :
    (names : List String) (db : Db) → IsLinked db → Retained names db (retain_servers names db)
unfolding retain_servers
retain_servers-Retained [] db h = record {
  same = unfold delete_servers in refl;
  servers = delete-servers (λ n. false) db;
  inbounds = delete-inbounds (λ n. false) db h;
  stats = delete-stats (λ n. false) db h;
}
retain_servers-Retained (n ∷ names) db h = record {
  same = unfold delete_servers in refl;
  servers = delete-servers (contains (n ∷ names)) db;
  inbounds = delete-inbounds (contains (n ∷ names)) db h;
  stats = delete-stats (contains (n ∷ names)) db h;
}

Stored-IsLinked :
    {config : String} {cloud : Cloud} {db db' : Db} → Stored config cloud db db' → IsLinked db'
Stored-IsLinked {config} {cloud} {db} {db'} h = record {
  inbounds = λ n g p. h.inbounds n g ∙ elim (Option-cases (last_named n cloud.servers)) [
    | inl q ↦ rw q refl
    | inr (s, q) ↦ ground (arith, p, q, h.servers n)
  ];
  stats = λ n k p. h.stats n k ∙ elim (Option-cases (last_named n cloud.servers)) [
    | inl q ↦ rw q refl
    | inr (s, q) ↦ ground (arith, p, q, h.servers n)
  ];
}

-- Up to the loop over the groups.
pub record PutOptions (config : String) (cloud : Cloud) (db mid : Db) : Type 0 where
  pub config_stored : mid.cloud_config ≡ config
  pub settings_stored : mid.settings ≡ cloud.settings
  pub servers : (n : String) → get n mid.servers ≡ map_option to_row (last_named n cloud.servers)
  pub inbounds :
      (n g : String)
      → get (n, g) mid.inbounds
        ≡ (if contains (map name_of cloud.servers) n then get (n, g) db.inbounds else none)
  pub stats :
      (n k : String)
      → get (n, k) mid.stats
        ≡ (if contains (map name_of cloud.servers) n then get (n, k) db.stats else none)

pub put_options-PutOptions :
    (config : String) (cloud : Cloud) (db : Db)
    → IsLinked db
    → PutOptions config cloud db (put_options config cloud db)
unfolding put_options
put_options-PutOptions config cloud db h =
    let names : List String = map name_of cloud.servers in
    let start : Db = record db { cloud_config = config; settings = cloud.settings } in
    let kept =
      retain_servers-Retained names start (record { inbounds = h.inbounds; stats = h.stats }) in
    record {
      config_stored = sym (ap (λ (x : Db). x.cloud_config) kept.same);
      settings_stored = sym (ap (λ (x : Db). x.settings) kept.same);
      servers = λ n.
          get-put_servers n cloud.servers (retain_servers names start).servers
          ∙ elim (Option-cases (last_named n cloud.servers)) [
            | inl p ↦ ground (arith, p, kept.servers n, is_some-last_named n cloud.servers)
            | inr (s, p) ↦ rw p refl
          ];
      inbounds = kept.inbounds;
      stats = kept.stats;
    }

-- An `update_db` that succeeds has read the config file, and leaves the database as the cloud and
-- the file say: the row of a server is that of the cloud's server of the name, the rows of its
-- inbounds are those of its groups, and a service keeps its row or gets a fresh one; nothing else
-- stays. The foreign keys hold again. The names in the cloud are distinct.
pub update_db-Stored :
    (file : Outcome DbError String) (cloud : Cloud) (db : Db) {db' : Db}
    → Distinct (map name_of cloud.servers)
    → IsLinked db
    → update_db file cloud db ≡ done db'
    → (config : String) × (file ≡ ok config) × Stored config cloud db db' × IsLinked db'
unfolding update_db
update_db-Stored (err e) cloud db d l h = cc
update_db-Stored (ok config) cloud db {db'} d l h =
    let mid = put_options-PutOptions config cloud db l in
    let groups = put_groups-PutGroups cloud.servers (put_options config cloud db) d h in
    let stored : Stored config cloud db db' = record {
      config_stored = sym (ap (λ (x : Db). x.cloud_config) groups.same) ∙ mid.config_stored;
      settings_stored = sym (ap (λ (x : Db). x.settings) groups.same) ∙ mid.settings_stored;
      servers = λ n. ap (λ (x : Db). get n x.servers) (sym groups.same) ∙ mid.servers n;
      all = groups.all;
      inbounds = λ n g. groups.inbounds n g ∙ elim (Option-cases (last_named n cloud.servers)) [
        | inl p ↦ ground (arith, p, mid.inbounds n g, is_some-last_named n cloud.servers)
        | inr (s, p) ↦ rw p refl
      ];
      stats = λ n k. groups.stats n k ∙ elim (Option-cases (last_named n cloud.servers)) [
        | inl p ↦ ground (arith, p, mid.stats n k, is_some-last_named n cloud.servers)
        | inr (s, p) ↦ ground (arith, p, mid.stats n k, is_some-last_named n cloud.servers)
      ];
    } in
    (config, refl, stored, Stored-IsLinked stored)
