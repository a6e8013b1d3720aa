-- ===== src/Firewall/Geoip/Ranges.antt =====
-- The tables of src/nft.rs' `create_geoip_db`, and the ranges that a rule takes from them.
use xcplane.Common.{
  String, Bool, true, false, Option, none, some, List, [], ◌∷◌, ok, string_eq, pair_eq,
  if◌then◌else◌, contains, is_some, ◌==◌, ◌&&◌, all, ◌≡◌, refl, arith, Bool-cases, inl, inr, ap,
  ◌∙◌, or_else, Eq, subst, ◌↔◌, and_split, is_some-eq-true,
}
use xcplane.Ip.{IpAddr, v4, v6}
use xcplane.Firewall.{GeoDb, blocked_ranges}
use xcplane.Firewall.Geoip.{GeoRecord, insert_record, insert_records, create_geoip_db}
use xcplane.Database.Tables.{Table, get, insert_missing}
use xcplane.Database.Tables.Laws.{get-insert_missing}

module _ {K V : Type 0} ⦃e : Eq K⦄ where
  -- Each key is in one row.
  abbrev pub IsKeyed : Table K V → Type 0
  IsKeyed [] = Unit
  IsKeyed ((k, v) ∷ t) = (get k t ≡ none) × IsKeyed t

  insert_missing-IsKeyed :
      (k : K) (v : V) (t : Table K V) → IsKeyed t → IsKeyed (insert_missing k v t)
  insert_missing-IsKeyed k v [] h = (refl, tt)
  insert_missing-IsKeyed k v ((j, w) ∷ t) h = elim (Bool-cases (j == k)) [
    | inl p ↦ rw p h
    | inr p ↦ rw p (
      get-insert_missing k j v t ∙ ground (arith, e.eqb_iff k j, e.eqb_iff j k, h.0),
      insert_missing-IsKeyed k v t h.1,
    )
  ]

-- The country that the table has for the range is one of the list.
abbrev pub is_blocked : List String → Option String → Bool
is_blocked countries none = false
is_blocked countries (some country) = contains countries country

pair_iff : (j k : String × String) → ((j == k) ≡ true) ↔ (j ≡ k)
pair_iff j k = Eq.eqb_iff pair_eq j k

blocked_ranges-IsKeyed :
    (countries : List String) (t : Table (String × String) String) (k : String × String)
    → IsKeyed t
    → contains (blocked_ranges countries t) k ≡ is_blocked countries (get k t)
unfolding blocked_ranges
blocked_ranges-IsKeyed countries [] k h = refl
blocked_ranges-IsKeyed countries ((j, country) ∷ t) k h = elim (Bool-cases (j == k)) [
  | inl p ↦
      let absent : get k t ≡ none = subst (λ x. get x t ≡ none) ((pair_iff j k).0 p) h.0 in
      ground (arith, p, absent, blocked_ranges-IsKeyed countries t k h.1)
  | inr p ↦ ground (arith, p, blocked_ranges-IsKeyed countries t k h.1)
]

abbrev pub both_v4 : Option IpAddr → Option IpAddr → Bool
both_v4 (some (v4 a)) (some (v4 b)) = true
both_v4 _ _ = false

abbrev pub both_v6 : Option IpAddr → Option IpAddr → Bool
both_v6 (some (v6 a)) (some (v6 b)) = true
both_v6 _ _ = false

module _ (parse : String → Option IpAddr) where
  abbrev pub parses : GeoRecord → Bool
  parses r = is_some (parse r.start) && is_some (parse r.stop)

  -- The country of the first record of the range, of those whose addresses pass the test.
  abbrev pub first_country :
      (Option IpAddr → Option IpAddr → Bool) → List GeoRecord → String × String → Option String
  first_country test [] k = none
  first_country test (r ∷ records) k =
      if test (parse r.start) (parse r.stop) && ((r.start, r.stop) == k)
      then some r.country
      else first_country test records k

  -- What the rows of the records add to the tables.
  record Added (records : List GeoRecord) (db db' : GeoDb) : Type 0 where
    in_v4 :
        (k : String × String)
        → get k db'.geoip4 ≡ or_else (get k db.geoip4) (first_country both_v4 records k)
    in_v6 :
        (k : String × String)
        → get k db'.geoip6 ≡ or_else (get k db.geoip6) (first_country both_v6 records k)
    keyed_v4 : IsKeyed db.geoip4 → IsKeyed db'.geoip4
    keyed_v6 : IsKeyed db.geoip6 → IsKeyed db'.geoip6

  insert_record-Added :
      (r : GeoRecord) (a b : IpAddr) (db : GeoDb)
      → parse r.start ≡ some a
      → parse r.stop ≡ some b
      → Added (r ∷ []) db (insert_record r a b db)
  unfolding insert_record
  insert_record-Added r (v4 a) (v4 b) db p q = record {
    in_v4 = λ k. ground (arith, p, q, get-insert_missing (r.start, r.stop) k r.country db.geoip4);
    in_v6 = λ k. ground (arith, p, q);
    keyed_v4 = insert_missing-IsKeyed (r.start, r.stop) r.country db.geoip4;
    keyed_v6 = λ h. h;
  }
  insert_record-Added r (v6 a) (v6 b) db p q = record {
    in_v4 = λ k. ground (arith, p, q);
    in_v6 = λ k. ground (arith, p, q, get-insert_missing (r.start, r.stop) k r.country db.geoip6);
    keyed_v4 = λ h. h;
    keyed_v6 = insert_missing-IsKeyed (r.start, r.stop) r.country db.geoip6;
  }
  insert_record-Added r (v4 a) (v6 b) db p q = record {
    in_v4 = λ k. ground (arith, p, q);
    in_v6 = λ k. ground (arith, p, q);
    keyed_v4 = λ h. h;
    keyed_v6 = λ h. h;
  }
  insert_record-Added r (v6 a) (v4 b) db p q = record {
    in_v4 = λ k. ground (arith, p, q);
    in_v6 = λ k. ground (arith, p, q);
    keyed_v4 = λ h. h;
    keyed_v6 = λ h. h;
  }

  Added-Added :
      (r : GeoRecord) (records : List GeoRecord) {db mid end_db : GeoDb}
      → Added (r ∷ []) db mid
      → Added records mid end_db
      → Added (r ∷ records) db end_db
  Added-Added r records {db} {mid} {end_db} a b = record {
    in_v4 = λ k. b.in_v4 k ∙ ground (arith, a.in_v4 k);
    in_v6 = λ k. b.in_v6 k ∙ ground (arith, a.in_v6 k);
    keyed_v4 = λ h. b.keyed_v4 (a.keyed_v4 h);
    keyed_v6 = λ h. b.keyed_v6 (a.keyed_v6 h);
  }

  insert_records-Added :
      (records : List GeoRecord) (db : GeoDb)
      → all parses records ≡ true
      → (db' : GeoDb) × (insert_records parse records db ≡ ok db') × Added records db db'
  unfolding insert_records
  insert_records-Added [] db h = (
    db,
    refl,
    record {
      in_v4 = λ k. ground arith;
      in_v6 = λ k. ground arith;
      keyed_v4 = λ g. g;
      keyed_v6 = λ g. g;
    },
  )
  insert_records-Added (r ∷ records) db h =
      let (here, rest) = and_split (parses r) (all parses records) h in
      let (a, p) = is_some-eq-true (parse r.start) (ground (arith, here)) in
      let (b, q) = is_some-eq-true (parse r.stop) (ground (arith, here)) in
      let (db', made, added) = insert_records-Added records (insert_record r a b db) rest in
      (db', rw (p, q) made, Added-Added r records (insert_record-Added r a b db p q) added)

  -- When each address of the records is one, the database is made, and the ranges that it gives to
  -- the rule of a family are those whose first record of that family has a listed country.
  pub blocked_ranges-create_geoip_db :
      (records : List GeoRecord) (countries : List String)
      → all parses records ≡ true
      → (db : GeoDb) × (create_geoip_db parse records ≡ ok db)
        × ((k : String × String)
            → contains (blocked_ranges countries db.geoip4) k
              ≡ is_blocked countries (first_country both_v4 records k))
        × ((k : String × String)
            → contains (blocked_ranges countries db.geoip6) k
              ≡ is_blocked countries (first_country both_v6 records k))
  unfolding create_geoip_db
  blocked_ranges-create_geoip_db records countries h =
      let (db, made, added) =
        insert_records-Added records (record { geoip4 = []; geoip6 = [] }) h in
      (
        db,
        made,
        (λ k.
            blocked_ranges-IsKeyed countries db.geoip4 k (added.keyed_v4 tt)
            ∙ ap (is_blocked countries) (added.in_v4 k)),
        (λ k.
            blocked_ranges-IsKeyed countries db.geoip6 k (added.keyed_v6 tt)
            ∙ ap (is_blocked countries) (added.in_v6 k)),
      )
