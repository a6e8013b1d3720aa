-- ===== src/Actions/Sorting.antt =====
-- What `AnsibleAction::sort_unique` of src/ansible.rs returns.
use xcplane.Common.{
  ℕ, ◌≤◌, ◌<◌, ◌≡◌, refl, Bool, ◌||◌, List, [], ◌∷◌, arith, leb, nat_eqb, any, Bool-cases, inl, inr,
  ◌∙◌,
}
use xcplane.Actions.{AnsibleAction, action_id, insert_sorted, sort, dedup_after, dedup, sort_unique}

-- Whether an action of the given position is in the list.
abbrev pub has_id : ℕ → List AnsibleAction → Bool
has_id n l = any (λ a. nat_eqb (action_id a) n) l

-- The positions rise from `n` on.
abbrev pub RisesFrom : ℕ → List AnsibleAction → Type 0
RisesFrom n [] = Unit
RisesFrom n (a ∷ l) = (n ≤ action_id a) × RisesFrom (action_id a) l

-- Each position is above the one before it.
abbrev pub Rises : List AnsibleAction → Type 0
Rises [] = Unit
Rises (a ∷ []) = Unit
Rises (a ∷ b ∷ l) = (action_id a < action_id b) × Rises (b ∷ l)

RisesFrom-insert_sorted :
    (n : ℕ) (a : AnsibleAction) (l : List AnsibleAction)
    → n ≤ action_id a
    → RisesFrom n l
    → RisesFrom n (insert_sorted a l)
unfolding insert_sorted
RisesFrom-insert_sorted n a [] h r = (h, tt)
RisesFrom-insert_sorted n a (b ∷ l) h r = elim (Bool-cases (leb (action_id a) (action_id b))) [
  | inl p ↦ rw p (h, (ground arith, r.1))
  | inr p ↦ rw p (r.0, RisesFrom-insert_sorted (action_id b) a l (ground arith) r.1)
]

RisesFrom-sort : (l : List AnsibleAction) → RisesFrom 0 (sort l)
unfolding sort
RisesFrom-sort [] = tt
RisesFrom-sort (a ∷ l) = RisesFrom-insert_sorted 0 a (sort l) (omega arith) (RisesFrom-sort l)

has_id-insert_sorted :
    (n : ℕ) (a : AnsibleAction) (l : List AnsibleAction)
    → has_id n (insert_sorted a l) ≡ (nat_eqb (action_id a) n || has_id n l)
unfolding insert_sorted
has_id-insert_sorted n a [] = refl
has_id-insert_sorted n a (b ∷ l) = ground (arith, has_id-insert_sorted n a l)

has_id-sort : (n : ℕ) (l : List AnsibleAction) → has_id n (sort l) ≡ has_id n l
unfolding sort
has_id-sort n [] = refl
has_id-sort n (a ∷ l) = rw (has_id-insert_sorted n a (sort l)) (rw (has_id-sort n l) refl)

has_id-dedup_after :
    (n : ℕ) (a : AnsibleAction) (l : List AnsibleAction)
    → (nat_eqb (action_id a) n || has_id n (dedup_after a l))
      ≡ (nat_eqb (action_id a) n || has_id n l)
unfolding dedup_after
has_id-dedup_after n a [] = refl
has_id-dedup_after n a (b ∷ l) = ground (arith, has_id-dedup_after n b l)

Rises-cong :
    (a b : AnsibleAction) (l : List AnsibleAction)
    → action_id a ≡ action_id b
    → Rises (b ∷ l)
    → Rises (a ∷ l)
Rises-cong a b [] e r = tt
Rises-cong a b (c ∷ l) e r = (ground (arith, r.0), r.1)

Rises-dedup_after :
    (a : AnsibleAction) (l : List AnsibleAction)
    → RisesFrom (action_id a) l
    → Rises (a ∷ dedup_after a l)
unfolding dedup_after
Rises-dedup_after a [] r = tt
Rises-dedup_after a (b ∷ l) r = elim (Bool-cases (nat_eqb (action_id a) (action_id b))) [
  | inl p ↦ rw p (Rises-cong a b (dedup_after b l) (ground arith) (Rises-dedup_after b l r.1))
  | inr p ↦ rw p (ground arith, Rises-dedup_after b l r.1)
]

Rises-dedup : (l : List AnsibleAction) → RisesFrom 0 l → Rises (dedup l)
unfolding dedup
Rises-dedup [] r = tt
Rises-dedup (a ∷ l) r = Rises-dedup_after a l r.1

has_id-dedup : (n : ℕ) (l : List AnsibleAction) → has_id n (dedup l) ≡ has_id n l
unfolding dedup
has_id-dedup n [] = refl
has_id-dedup n (a ∷ l) = has_id-dedup_after n a l

-- The list that `sort_unique` returns has the actions of the given list, each of them once, in the
-- order of priority.
pub sort_unique_lem :
    (l : List AnsibleAction)
    → Rises (sort_unique l) × ((n : ℕ) → has_id n (sort_unique l) ≡ has_id n l)
unfolding sort_unique
sort_unique_lem l =
    (Rises-dedup (sort l) (RisesFrom-sort l), λ n. has_id-dedup n (sort l) ∙ has_id-sort n l)
