-- ===== src/Database/Tables/Laws.antt =====
-- What a table has at a key after each statement.
use xcplane.Common.{
  get_or, map_option, ◌≡◌, refl, Bool, none, some, [], ◌∷◌, Eq, ◌==◌, if◌then◌else◌, arith,
  Bool-cases, inl, inr, subst,
}
use xcplane.Database.Tables.{Table, get, upsert, insert_missing, update, keep_rows}

module _ {K V : Type 0} ⦃e : Eq K⦄ where
  pub get-upsert :
      (k j : K) (v : V) (t : Table K V)
      → get j (upsert k v t) ≡ (if k == j then some v else get j t)
  get-upsert k j v [] = refl
  get-upsert k j v ((i, w) ∷ t) =
      ground (arith, e.eqb_iff k j, e.eqb_iff i k, e.eqb_iff i j, get-upsert k j v t)

  pub get-insert_missing :
      (k j : K) (v : V) (t : Table K V)
      → get j (insert_missing k v t) ≡ (if k == j then some (get_or (get j t) v) else get j t)
  get-insert_missing k j v [] = ground arith
  get-insert_missing k j v ((i, w) ∷ t) =
      ground (arith, e.eqb_iff k j, e.eqb_iff i k, e.eqb_iff i j, get-insert_missing k j v t)

  pub get-update :
      (k j : K) (f : V → V) (t : Table K V)
      → get j (update k f t) ≡ (if k == j then map_option f (get j t) else get j t)
  get-update k j f [] = ground arith
  get-update k j f ((i, w) ∷ t) =
      ground (arith, e.eqb_iff k j, e.eqb_iff i k, e.eqb_iff i j, get-update k j f t)

  pub get-keep_rows :
      (p : K → Bool) (j : K) (t : Table K V)
      → get j (keep_rows p t) ≡ (if p j then get j t else none)
  get-keep_rows p j [] = ground arith
  get-keep_rows p j ((i, w) ∷ t) = elim (Bool-cases (i == j)) [
    | inl q ↦
        let same : i ≡ j = (e.eqb_iff i j).0 q in
        let at : p i ≡ p j = subst (λ x. p i ≡ p x) same refl in
        ground (arith, q, at, get-keep_rows p j t)
    | inr q ↦ ground (arith, q, get-keep_rows p j t)
  ]
