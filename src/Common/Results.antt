-- ===== src/Common/Results.antt =====
-- `Result<T, BoxError>`: the errors of a component are a data type of its own.
use mathlib.Core.Path.{◌≡◌, refl}
use mathlib.Core.Logic.{◌⊎◌, inl, inr}
use mathlib.Core.Bool.{Bool, true, false}
use mathlib.Core.Option.{Option, none, some}
use mathlib.Core.List.{List, ◌∷◌}
use xcplane.Common.Tests.{if◌then◌else◌}
use xcplane.Common.Equality.{Eq}
use xcplane.Common.Sets.{contains}

pub data Outcome {ℓ κ} (E : Type ℓ) (A : Type κ) : Type (ℓ ⊔ κ) where
  ok : A → Outcome E A
  err : E → Outcome E A

-- The operator `?`.
infixl 5 ◌>>=◌
abbrev pub ◌>>=◌ {ℓ κ μ} :
    {E : Type ℓ} {A : Type κ} {B : Type μ} → Outcome E A → (A → Outcome E B) → Outcome E B
err failure >>= next = err failure
ok value >>= next = next value

-- `if !b { return Err(e) }`
abbrev pub ensure {ℓ} : {E : Type ℓ} → Bool → E → Outcome E (Unit {0})
ensure true e = ok tt
ensure false e = err e

-- `o.ok_or(e)`
abbrev pub ok_or {ℓ κ} : {E : Type ℓ} {A : Type κ} → Option A → E → Outcome E A
ok_or none e = err e
ok_or (some a) e = ok a

-- The operator `?` where the value is the unit.
infixl 5 ◌>>◌
abbrev pub ◌>>◌ {ℓ μ} : {E : Type ℓ} {B : Type μ} → Outcome E (Unit {0}) → Outcome E B → Outcome E B
first >> second = first >>= λ done. second

abbrev pub is_ok {ℓ κ} : {E : Type ℓ} {A : Type κ} → Outcome E A → Bool
is_ok (ok a) = true
is_ok (err e) = false

-- `if !set.insert(a) { return Err(e) }`: the set with the new member.
abbrev pub insert_new {ℓ} :
    {E : Type ℓ} {A : Type 0} ⦃q : Eq A⦄ → A → List A → E → Outcome E (List A)
insert_new a s e = if contains s a then err e else ok (a ∷ s)

module _ {ℓ κ μ} {E : Type ℓ} {A : Type κ} {B : Type μ} where
  -- Both parts of a chain that succeeds succeed.
  pub >>=-eq-ok :
      (first : Outcome E A) (next : A → Outcome E B) {result : B}
      → (first >>= next) ≡ ok result
      → (value : A) × (first ≡ ok value) × (next value ≡ ok result)
  >>=-eq-ok (err failure) next chain = cc
  >>=-eq-ok (ok value) next chain = (value, refl, chain)

module _ {ℓ} {E : Type ℓ} where
  pub ensure-eq-ok : (b : Bool) (e : E) {u : Unit {0}} → ensure b e ≡ ok u → b ≡ true
  ensure-eq-ok true e h = refl
  ensure-eq-ok false e h = cc

module _ {ℓ κ} {E : Type ℓ} {A : Type κ} where
  pub Outcome-cases : (o : Outcome E A) → ((a : A) × (o ≡ ok a)) ⊎ ((e : E) × (o ≡ err e))
  Outcome-cases (ok a) = inl (a, refl)
  Outcome-cases (err e) = inr (e, refl)

  pub ok_or-eq-ok : (o : Option A) (e : E) {a : A} → ok_or o e ≡ ok a → o ≡ some a
  ok_or-eq-ok none e h = cc
  ok_or-eq-ok (some b) e h = cc

  pub ok-injective : (a b : A) → ◌≡◌ {A = Outcome E A} (ok a) (ok b) → a ≡ b
  ok-injective a b h = cc
