-- ===== src/Database/Update/Rows.antt =====
-- What the statements of `update_db` (src/db.rs) on one server leave at a key.
use xcplane.Common.{
  String, Option, none, some, List, [], ◌∷◌, contains, lookup, map, string_eq, pair_eq, get_or,
  map_option, is_some, str_eq, eq_iff, if◌then◌else◌, ◌&&◌, ◌≡◌, refl, arith, or_else, subst, sym,
  ap, ◌∙◌,
}
use xcplane.Server.{Inbound, KetServer}
use xcplane.Server.Methods.{svc_kinds_string}
use xcplane.Database.{ServerRow, InboundRow, StatRow, Db, Run, done, failed, and_run}
use xcplane.Database.Tables.{Table, get, upsert, insert_missing, keep_rows}
use xcplane.Database.Tables.Laws.{get-upsert, get-insert_missing, get-keep_rows}
use xcplane.Database.Update.{
  to_row, inbound_row, fresh_stat, put_servers, of_server, put_inbound, put_inbounds, put_stats,
  group_name, retain_inbounds, refresh_stats, put_server,
}
use xcplane.Reconcile.Cloud.{last_named}

pub get-put_servers :
    (n : String) (l : List KetServer) (t : Table String ServerRow)
    → get n (put_servers l t) ≡ or_else (map_option to_row (last_named n l)) (get n t)
unfolding put_servers last_named
get-put_servers n [] t = refl
get-put_servers n (s ∷ l) t =
    get-put_servers n l (upsert s.name (to_row s) t)
    ∙ ground (arith, get-upsert s.name n (to_row s) t)

pub and_run-done :
    (r : Run) (next : Db → Run) {db' : Db}
    → and_run r next ≡ done db'
    → (db : Db) × (r ≡ done db) × (next db ≡ done db')
and_run-done (done db) next h = (db, refl, h)
and_run-done (failed e db) next h = cc

module _ (s : KetServer) (g : String) where
  -- The row that the loop over the inbounds leaves for the inbound `g`.
  abbrev pub last_group : List Inbound → Option InboundRow
  last_group [] = none
  last_group (inb ∷ l) = or_else (last_group l) (
      if str_eq inb.name g
      then map_option (inbound_row inb) (lookup inb.name s.secrets.mother_subids)
      else none)

-- Only the inbounds change, at each key as the last inbound of the name says.
pub record PutInbounds (s : KetServer) (l : List Inbound) (db db' : Db) : Type 0 where
  pub same : record db { inbounds = db'.inbounds } ≡ db'
  pub rows :
      (n g : String)
      → get (n, g) db'.inbounds ≡ (
          if str_eq s.name n
          then or_else (last_group s g l) (get (n, g) db.inbounds)
          else get (n, g) db.inbounds)
  pub all : (g : String) → is_some (last_group s g l) ≡ contains (map group_name l) g

put_inbound-done :
    (s : KetServer) (inb : Inbound) (o : Option String) (db : Db) {db' : Db}
    → put_inbound s inb o db ≡ done db'
    → (subid : String) × (o ≡ some subid)
      × (record db { inbounds = upsert (s.name, inb.name) (inbound_row inb subid) db.inbounds }
          ≡ db')
unfolding put_inbound
put_inbound-done s inb none db h = cc
put_inbound-done s inb (some subid) db h = (subid, refl, cc)

pub put_inbounds-PutInbounds :
    (s : KetServer) (l : List Inbound) (db : Db) {db' : Db}
    → put_inbounds s l db ≡ done db'
    → PutInbounds s l db db'
unfolding put_inbounds
put_inbounds-PutInbounds s [] db {db'} h =
    let same : db ≡ db' = cc in
    subst (PutInbounds s [] db) same
      (record { same = refl; rows = λ n g. ground arith; all = λ g. refl })
put_inbounds-PutInbounds s (inb ∷ l) db {db'} h =
    let (mid, first, rest) =
      and_run-done (put_inbound s inb (lookup inb.name s.secrets.mother_subids) db)
        (put_inbounds s l) h in
    let (subid, e, m) = put_inbound-done s inb (lookup inb.name s.secrets.mother_subids) db first in
    let ih = put_inbounds-PutInbounds s l mid rest in
    let row : InboundRow = inbound_row inb subid in
    let at_mid : upsert (s.name, inb.name) row db.inbounds ≡ mid.inbounds =
      ap (λ (d : Db). d.inbounds) m in
    record {
      same = subst (λ (d : Db). record d { inbounds = db'.inbounds } ≡ db') (sym m) ih.same;
      rows = λ n g.
          ih.rows n g
          ∙ ap (λ o. if str_eq s.name n then or_else (last_group s g l) o else o)
              (ap (get (n, g)) (sym at_mid) ∙ get-upsert (s.name, inb.name) (n, g) row db.inbounds)
          ∙ ground (arith, e);
      all = λ g. ground (arith, ih.all g, e);
    }

get-put_stats :
    (m : String) (svcs : List String) (n k : String) (t : Table (String × String) StatRow)
    → get (n, k) (put_stats m svcs t) ≡ (
        if str_eq m n && contains svcs k
        then some (get_or (get (n, k) t) fresh_stat)
        else get (n, k) t)
unfolding put_stats
get-put_stats m [] n k t = ground arith
get-put_stats m (svc ∷ svcs) n k t =
    get-put_stats m svcs n k (insert_missing (m, svc) fresh_stat t)
    ∙ ground (arith, get-insert_missing (m, svc) (n, k) fresh_stat t)

-- The row of a service that the server has is the old one or a fresh one.
abbrev pub stat_of : List String → String → Option StatRow → Option StatRow
stat_of svcs k old = if contains svcs k then some (get_or old fresh_stat) else none

-- The rows of the server alone change, to those of its inbounds and services.
pub record PutServer (s : KetServer) (db db' : Db) : Type 0 where
  pub same : record db { inbounds = db'.inbounds; stats = db'.stats } ≡ db'
  pub inbounds :
      (n g : String)
      → get (n, g) db'.inbounds
        ≡ (if str_eq s.name n then last_group s g s.inbounds else get (n, g) db.inbounds)
  pub stats :
      (n k : String)
      → get (n, k) db'.stats ≡ (
          if str_eq s.name n
          then stat_of (svc_kinds_string s) k (get (n, k) db.stats)
          else get (n, k) db.stats)
  pub all :
      (g : String) → is_some (last_group s g s.inbounds) ≡ contains (map group_name s.inbounds) g

kept_inbounds : KetServer → Db → Table (String × String) InboundRow
kept_inbounds s db = keep_rows (of_server s.name (map group_name s.inbounds)) db.inbounds

-- The statements on the server, when the loop over the inbounds leaves `t`.
refresh_stats-PutServer :
    (s : KetServer) (db : Db) (t : Table (String × String) InboundRow)
    → ((n g : String)
        → get (n, g) t ≡ (
            if str_eq s.name n
            then or_else (last_group s g s.inbounds) (get (n, g) (kept_inbounds s db))
            else get (n, g) (kept_inbounds s db)))
    → ((g : String) → is_some (last_group s g s.inbounds) ≡ contains (map group_name s.inbounds) g)
    → PutServer s db (refresh_stats s (record db { inbounds = t }))
unfolding refresh_stats kept_inbounds
refresh_stats-PutServer s db t rows all = record {
  same = refl;
  inbounds = λ n g.
      rows n g
      ∙ ground (
        arith,
        all g,
        eq_iff s.name n,
        eq_iff n s.name,
        get-keep_rows (of_server s.name (map group_name s.inbounds)) (n, g) db.inbounds,
      );
  stats = λ n k.
      get-put_stats s.name (svc_kinds_string s) n k
        (keep_rows (of_server s.name (svc_kinds_string s)) db.stats)
      ∙ ground (
        arith,
        eq_iff s.name n,
        eq_iff n s.name,
        get-keep_rows (of_server s.name (svc_kinds_string s)) (n, k) db.stats,
      );
  all = all;
}

pub put_server-PutServer :
    (s : KetServer) (db : Db) {db' : Db} → put_server s db ≡ done db' → PutServer s db db'
unfolding put_server
put_server-PutServer s db {db'} h =
    let (mid, first, rest) = and_run-done (put_inbounds s s.inbounds (retain_inbounds s db)) _ h in
    let put = put_inbounds-PutInbounds s s.inbounds (retain_inbounds s db) first in
    let at_mid : record db { inbounds = mid.inbounds } ≡ mid = unfold retain_inbounds in put.same in
    let at_end : refresh_stats s mid ≡ db' = cc in
    subst (PutServer s db) (ap (refresh_stats s) at_mid ∙ at_end) (
      refresh_stats-PutServer s db mid.inbounds (unfold kept_inbounds retain_inbounds in put.rows)
        put.all)
