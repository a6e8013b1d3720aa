-- ===== src/Database/Tables.antt =====
-- A table of the database with a primary key: `SELECT` by the key, and the two forms of `INSERT …
-- ON CONFLICT` that src/db.rs uses. A row keeps its place when it is updated; a new one is the
-- last.
pub mod Laws
use xcplane.Common.{
  Bool, true, false, Option, none, some, List, [], ◌∷◌, Eq, ◌==◌, if◌then◌else◌, retain,
}

abbrev pub Table : Type 0 → Type 0 → Type 0
Table K V = List (K × V)

module _ {K V : Type 0} ⦃e : Eq K⦄ where
  abbrev pub get : K → Table K V → Option V
  get k [] = none
  get k ((j, v) ∷ t) = if j == k then some v else get k t

  -- `ON CONFLICT DO UPDATE`
  abbrev pub upsert : K → V → Table K V → Table K V
  upsert k v [] = (k, v) ∷ []
  upsert k v ((j, w) ∷ t) = let rest = upsert k v t in if j == k then (j, v) ∷ t else (j, w) ∷ rest

  -- `ON CONFLICT DO NOTHING`
  abbrev pub insert_missing : K → V → Table K V → Table K V
  insert_missing k v [] = (k, v) ∷ []
  insert_missing k v ((j, w) ∷ t) =
      let rest = insert_missing k v t in if j == k then (j, w) ∷ t else (j, w) ∷ rest

  -- `UPDATE … WHERE` on the key.
  abbrev pub update : K → (V → V) → Table K V → Table K V
  update k f [] = []
  update k f ((j, w) ∷ t) =
      let rest = update k f t in if j == k then (j, f w) ∷ t else (j, w) ∷ rest

module _ {K V : Type 0} where
  -- `DELETE … WHERE NOT`, by a test on the key.
  abbrev pub keep_rows : (K → Bool) → Table K V → Table K V
  keep_rows p t = retain (λ (row : K × V). p row.0) t
