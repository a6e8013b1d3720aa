-- ===== src/Firewall/Geoip.antt =====
-- src/nft.rs: `create_geoip_db`. The rows are inserted in one transaction, so an error leaves none.
-- The records are what the CSV reader gives, and the parser of addresses is an argument.
pub mod Ranges
use xcplane.Common.{
  String, Option, none, some, List, [], ◌∷◌, Outcome, ok, err, ◌>>=◌, ok_or, string_eq, pair_eq,
}
use xcplane.Ip.{IpAddr, v4, v6}
use xcplane.Firewall.{GeoDb, NftError, bad_address}
use xcplane.Database.Tables.{Table, insert_missing}

pub record GeoRecord : Type 0 where
  pub start : String
  pub stop : String  -- `end`
  pub country : String

unfoldable pub insert_record : GeoRecord → IpAddr → IpAddr → GeoDb → GeoDb
insert_record r (v4 a) (v4 b) db = record db {
  geoip4 = insert_missing (r.start, r.stop) r.country db.geoip4;
}
insert_record r (v6 a) (v6 b) db = record db {
  geoip6 = insert_missing (r.start, r.stop) r.country db.geoip6;
}
insert_record r _ _ db = db

module _ (parse : String → Option IpAddr) where
  unfoldable pub insert_records : List GeoRecord → GeoDb → Outcome NftError GeoDb
  unfolding insert_record
  insert_records [] db = ok db
  insert_records (r ∷ records) db = do
    first ← ok_or (parse r.start) bad_address
    last ← ok_or (parse r.stop) bad_address
    insert_records records (insert_record r first last db)

  unfoldable pub create_geoip_db : List GeoRecord → Outcome NftError GeoDb
  unfolding insert_records
  create_geoip_db records = insert_records records (record { geoip4 = []; geoip6 = [] })
