-- ===== src/Common/Maps.antt =====
-- `HashMap` with text keys as an association list: `get`, `contains_key`, `entry().or_insert()`.
use Prim.Native.String.{String}
use mathlib.Core.Path.{◌≡◌}
use mathlib.Core.Option.{Option, none, some}
use mathlib.Core.List.{List, [], ◌∷◌}
use native.Mathlib.Omega.{arith}
use text.Mathlib.Text.{◌==◌}
use text.Mathlib.TextEquality.{eq_iff}
use xcplane.Common.Tests.{if◌then◌else◌}

abbrev pub Map : Type 0 → Type 0
Map V = List (String × V)

module _ {V : Type 0} where
  abbrev pub lookup : String → Map V → Option V
  lookup k [] = none
  lookup k ((j, v) ∷ m) = if j == k then some v else lookup k m

  -- `entry(k).or_insert(v)`: a key that is there keeps its value.
  abbrev pub or_insert : String → V → Map V → Map V
  or_insert k v [] = (k, v) ∷ []
  or_insert k v ((j, w) ∷ m) =
      let rest = or_insert k v m in if j == k then (j, w) ∷ m else (j, w) ∷ rest

  -- `insert(k, v)`: a key that is there gets the new value.
  abbrev pub put_key : String → V → Map V → Map V
  put_key k v [] = (k, v) ∷ []
  put_key k v ((j, w) ∷ m) =
      let rest = put_key k v m in if j == k then (k, v) ∷ m else (j, w) ∷ rest

  pub lookup-put_key :
      (k j : String) (v : V) (m : Map V)
      → lookup j (put_key k v m) ≡ (if k == j then some v else lookup j m)
  lookup-put_key k j v [] = ground arith
  lookup-put_key k j v ((i, w) ∷ m) =
      ground (arith, eq_iff k j, eq_iff i k, eq_iff i j, lookup-put_key k j v m)

  -- What `or_insert` leaves at a key: the old value, else the given one.
  abbrev pub or_value : Option V → V → V
  or_value none v = v
  or_value (some w) v = w

  pub lookup-or_insert :
      (k j : String) (v : V) (m : Map V)
      → lookup j (or_insert k v m) ≡ (if k == j then some (or_value (lookup j m) v) else lookup j m)
  lookup-or_insert k j v [] = ground arith
  lookup-or_insert k j v ((i, w) ∷ m) =
      ground (arith, eq_iff k j, eq_iff i k, eq_iff i j, lookup-or_insert k j v m)

  abbrev pub or_else : Option V → Option V → Option V
  or_else none o = o
  or_else (some v) o = some v
