-- ===== src/Common/Sets.antt =====
-- `HashSet` as a list without order: membership, `insert` with its Boolean, `is_subset`.
use mathlib.Core.Path.{◌≡◌, refl}
use mathlib.Core.Logic.{◌⊎◌, inl, inr}
use mathlib.Core.Bool.{Bool, true, false, ◌||◌}
use mathlib.Core.List.{List, [], ◌∷◌, ◌++◌}
use native.Mathlib.Omega.{arith}
use xcplane.Common.Tests.{if◌then◌else◌, Bool-cases}
use xcplane.Common.Equality.{Eq, ◌==◌, beq_refl}
use xcplane.Common.Lists.{all}

module _ {A : Type 0} ⦃e : Eq A⦄ where
  abbrev pub contains : List A → A → Bool
  contains [] a = false
  contains (x ∷ xs) a = x == a || contains xs a

  -- `set.insert(a)`: the flag says whether `a` was new.
  abbrev pub insert : A → List A → Bool × List A
  insert a s = if contains s a then (false, s) else (true, a ∷ s)

  abbrev pub remove : A → List A → List A
  remove a [] = []
  remove a (x ∷ xs) = let rest = remove a xs in if x == a then rest else x ∷ rest

  abbrev pub is_subset : List A → List A → Bool
  is_subset xs ys = all (contains ys) xs

  -- The members of a list are pairwise different.
  abbrev pub Distinct : List A → Type 0
  Distinct [] = Unit
  Distinct (x ∷ xs) = (contains xs x ≡ false) × Distinct xs

  abbrev pub Member : A → List A → Type 0
  Member a [] = ⊥
  Member a (x ∷ xs) = (x ≡ a) ⊎ Member a xs

  pub contains-Member : (xs : List A) (a : A) → contains xs a ≡ true → Member a xs
  contains-Member [] a h = ground arith
  contains-Member (x ∷ xs) a h = elim (Bool-cases (x == a)) [
    | inl p ↦ inl ((e.eqb_iff x a).0 p)
    | inr p ↦ inr (contains-Member xs a (ground arith))
  ]

  pub Member-contains : (xs : List A) (a : A) → Member a xs → contains xs a ≡ true
  Member-contains [] a m = elim m [ ]
  Member-contains (x ∷ xs) a (inl p) = ground (arith, e.eqb_iff x a)
  Member-contains (x ∷ xs) a (inr m) = ground (arith, Member-contains xs a m)

  pub contains-remove_self : (a : A) (xs : List A) → contains (remove a xs) a ≡ false
  contains-remove_self a [] = refl
  contains-remove_self a (x ∷ xs) = ground (arith, contains-remove_self a xs)

  pub contains-remove_ne :
      (a b : A) (xs : List A) → (a == b) ≡ false → contains (remove a xs) b ≡ contains xs b
  contains-remove_ne a b [] h = refl
  contains-remove_ne a b (x ∷ xs) h =
      ground (arith, contains-remove_ne a b xs, e.eqb_iff x a, e.eqb_iff x b, e.eqb_iff a b)

  pub contains-append :
      (xs ys : List A) (a : A) → contains (xs ++ ys) a ≡ (contains xs a || contains ys a)
  contains-append [] ys a = refl
  contains-append (x ∷ xs) ys a = ground (arith, contains-append xs ys a)

  pub is_subset_at :
      (xs ys : List A) (a : A)
      → is_subset xs ys ≡ true
      → contains xs a ≡ true
      → contains ys a ≡ true
  is_subset_at [] ys a h m = ground arith
  is_subset_at (x ∷ xs) ys a h m = ground (arith, is_subset_at xs ys a, e.eqb_iff x a)

module _ {A : Type 0} ⦃e : Eq A⦄ where
  -- The members of `xs` are pairwise different, and none of them is in `s`.
  abbrev pub Fresh : List A → List A → Type 0
  Fresh s [] = Unit
  Fresh s (x ∷ xs) = (contains s x ≡ false) × Fresh (x ∷ s) xs

  pub Fresh-contains :
      (s xs : List A) (a : A) → contains s a ≡ true → Fresh s xs → contains xs a ≡ false
  Fresh-contains s [] a h f = refl
  Fresh-contains s (x ∷ xs) a h f = ground (arith, Fresh-contains (x ∷ s) xs a, f.1, e.eqb_iff x a)

  -- What a loop of `insert` accepts is without repetition.
  pub Fresh-Distinct : (s xs : List A) → Fresh s xs → Distinct xs
  Fresh-Distinct s [] f = tt
  Fresh-Distinct s (x ∷ xs) f =
      (Fresh-contains (x ∷ s) xs x (ground (arith, beq_refl x)) f.1, Fresh-Distinct (x ∷ s) xs f.1)

  pub Distinct-concat :
      (xs : List A) (a : A) → Distinct xs → contains xs a ≡ false → Distinct (xs ++ a ∷ [])
  Distinct-concat [] a d h = (refl, tt)
  Distinct-concat (x ∷ xs) a d h = (
    rw (contains-append xs (a ∷ []) x) (ground (arith, e.eqb_iff x a, e.eqb_iff a x)),
    Distinct-concat xs a d.1 (ground arith),
  )
