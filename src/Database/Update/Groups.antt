-- ===== src/Database/Update/Groups.antt =====
-- What `update_db` (src/db.rs) leaves in the database.
use xcplane.Common.{
  String, true, false, Option, none, some, List, [], ◌∷◌, contains, map, string_eq, pair_eq,
  is_some, str_eq, eq_iff, if◌then◌else◌, ◌≡◌, refl, arith, Bool-cases, inl, inr, Option-cases,
  subst, sym, ap, ◌∙◌, Distinct, ◌⊎◌,
}
use xcplane.Server.{KetServer}
use xcplane.Server.Methods.{svc_kinds_string}
use xcplane.Database.{InboundRow, StatRow, Db, done}
use xcplane.Database.Tables.{get}
use xcplane.Database.Update.{group_name, put_server, put_groups, name_of}
use xcplane.Database.Update.Rows.{and_run-done, last_group, stat_of, put_server-PutServer}
use xcplane.Reconcile.Cloud.{last_named}

-- The rows of a server, by the server that the cloud has under the name, if any.
abbrev pub group_row : Option KetServer → String → Option InboundRow → Option InboundRow
group_row none g old = old
group_row (some s) g old = last_group s g s.inbounds

abbrev pub stat_row : Option KetServer → String → Option StatRow → Option StatRow
stat_row none k old = old
stat_row (some s) k old = stat_of (svc_kinds_string s) k old

pub record PutGroups (l : List KetServer) (db db' : Db) : Type 0 where
  pub same : record db { inbounds = db'.inbounds; stats = db'.stats } ≡ db'
  pub inbounds :
      (n g : String)
      → get (n, g) db'.inbounds ≡ group_row (last_named n l) g (get (n, g) db.inbounds)
  pub stats :
      (n k : String) → get (n, k) db'.stats ≡ stat_row (last_named n l) k (get (n, k) db.stats)
  pub all :
      (n : String) {s : KetServer}
      → last_named n l ≡ some s
      → (g : String) → is_some (last_group s g s.inbounds) ≡ contains (map group_name s.inbounds) g

pub is_some-last_named :
    (n : String) (l : List KetServer) → is_some (last_named n l) ≡ contains (map name_of l) n
unfolding last_named
is_some-last_named n [] = refl
is_some-last_named n (s ∷ l) = ground (arith, is_some-last_named n l)

-- A name that the rest of the list has not.
last_named-none :
    (n : String) (s : KetServer) (l : List KetServer)
    → contains (map name_of l) s.name ≡ false
    → str_eq s.name n ≡ true
    → last_named n l ≡ none
last_named-none n s l h e =
    let same : s.name ≡ n = (eq_iff s.name n).0 e in
    let absent : contains (map name_of l) n ≡ false =
      subst (λ m. contains (map name_of l) m ≡ false) same h in
    elim (Option-cases (last_named n l)) [
      | inl p ↦ p
      | inr (x, p) ↦ ground (arith, p, is_some-last_named n l, absent)
    ]

-- What is done with the row of the first server, then of the others, is done once.
last_named-at :
    {A : Type 0} (row : Option KetServer → Option A → Option A)
    → ((old : Option A) → row none old ≡ old)
    → (n : String) (s : KetServer) (l : List KetServer) (old : Option A)
    → contains (map name_of l) s.name ≡ false
    → row (last_named n l) (if str_eq s.name n then row (some s) old else old)
      ≡ row (last_named n (s ∷ l)) old
unfolding last_named
last_named-at row row_none n s l old h = elim (Bool-cases (str_eq s.name n)) [
  | inl e ↦ rw (e, last_named-none n s l h e, row_none)
  | inr e ↦ elim (Option-cases (last_named n l)) [ inl p ↦ rw (e, p) | inr (x, p) ↦ rw (e, p) ]
]

last_named-last_named :
    (n : String) (s : KetServer) (l : List KetServer) {t : KetServer}
    → last_named n (s ∷ l) ≡ some t
    → (last_named n l ≡ some t) ⊎ (s ≡ t)
unfolding last_named
last_named-last_named n s l {t} h = elim (Option-cases (last_named n l)) [
  | inl p ↦ elim (Bool-cases (str_eq s.name n)) [
    | inl e ↦ let same : some s ≡ some t = (rw (p, e) at h) in inr cc
    | inr e ↦ let absurd : none ≡ some t = (rw (p, e) at h) in cc
  ]
  | inr (x, p) ↦ inl (p ∙ (rw p at h))
]

pub put_groups-PutGroups :
    (l : List KetServer) (db : Db) {db' : Db}
    → Distinct (map name_of l)
    → put_groups l db ≡ done db'
    → PutGroups l db db'
unfolding put_groups
put_groups-PutGroups [] db {db'} d h =
    let same : db ≡ db' = cc in
    subst (PutGroups [] db) same (
      unfold last_named in
      record { same = refl; inbounds = λ n g. refl; stats = λ n k. refl; all = λ n h'. cc })
put_groups-PutGroups (s ∷ l) db {db'} d h =
    let (mid, first, rest) = and_run-done (put_server s db) (put_groups l) h in
    let put = put_server-PutServer s db first in
    let ih = put_groups-PutGroups l mid d.1 rest in
    record {
      same =
          subst (λ (x : Db). record x { inbounds = db'.inbounds; stats = db'.stats } ≡ db')
            (sym put.same) ih.same;
      inbounds = λ n g.
          ih.inbounds n g
          ∙ ap (group_row (last_named n l) g) (put.inbounds n g)
          ∙ last_named-at (λ o. group_row o g) (λ old. refl) n s l (get (n, g) db.inbounds) d.0;
      stats = λ n k.
          ih.stats n k
          ∙ ap (stat_row (last_named n l) k) (put.stats n k)
          ∙ last_named-at (λ o. stat_row o k) (λ old. refl) n s l (get (n, k) db.stats) d.0;
      all = λ n {s = t} q g. elim (last_named-last_named n s l q) [
        | inl p ↦ ih.all n p g
        | inr e ↦
            subst
              (λ x. is_some (last_group x g x.inbounds) ≡ contains (map group_name x.inbounds) g) e
              (put.all g)
      ];
    }
