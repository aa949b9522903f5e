-- ===== src/Common/Map.antt =====
-- `std::unordered_map` with numbers as keys, as an association list. Its order is the order in
-- which the model walks the map; the C++ order is unspecified.
pub mod Keys
use Prim.Native.Nat.{ℕ}
use mathlib.Core.Path.{◌≡◌, refl}
use mathlib.Core.Bool.{false}
use mathlib.Core.Option.{Option, none, some}
use mathlib.Core.List.{List, [], ◌∷◌, map}
use native.Mathlib.Omega.{arith}
use ocvsmd.Common.Lists.{All}
use ocvsmd.Common.Tests.{◌==◌, if◌then◌else◌, ==_refl}

abbrev pub Map {ℓ} : Type ℓ → Type ℓ
Map V = List (ℕ × V)

module _ {ℓ} {V : Type ℓ} where
  -- operator[] with an assignment: replaces, or adds.
  unfoldable pub insert : ℕ → V → Map V → Map V
  insert key value [] = (key, value) ∷ []
  insert key value ((old, w) ∷ rest) =
      if old == key then (key, value) ∷ rest else (old, w) ∷ insert key value rest

  -- find
  unfoldable pub lookup : ℕ → Map V → Option V
  lookup key [] = none
  lookup key ((other, value) ∷ rest) = if other == key then some value else lookup key rest

  -- emplace and insert: an entry that is there stays.
  unfoldable pub emplace : ℕ → V → Map V → Map V
  emplace k v [] = (k, v) ∷ []
  emplace k v ((j, w) ∷ m) = if j == k then (j, w) ∷ m else (j, w) ∷ emplace k v m

  -- erase by key
  unfoldable pub erase : ℕ → Map V → Map V
  erase k [] = []
  erase k ((j, w) ∷ m) = let rest = erase k m in if j == k then rest else (j, w) ∷ rest

  abbrev pub keys : Map V → List ℕ
  keys = map (λ e. e.0)

  abbrev pub values : Map V → List V
  values = map (λ e. e.1)

  -- What a key finds after an assignment: the value assigned, or what it found before.
  pub lookup-insert :
      (set get : ℕ) (value : V) (m : Map V)
      → lookup get (insert set value m) ≡ (if set == get then some value else lookup get m)
  unfolding insert lookup
  lookup-insert set get value [] = refl
  lookup-insert set get value ((other, w) ∷ rest) = ground (arith, lookup-insert set get value rest)

  pub lookup-erase :
      (k j : ℕ) (m : Map V) → lookup j (erase k m) ≡ (if k == j then none else lookup j m)
  unfolding lookup erase
  lookup-erase k j [] = ground arith
  lookup-erase k j ((i, w) ∷ m) = ground (arith, lookup-erase k j m)

  pub lookup-emplace_self :
      (k : ℕ) (v : V) (m : Map V)
      → lookup k (emplace k v m) ≡ (elim (lookup k m) [ none ↦ some v | some w ↦ some w ])
  unfolding lookup emplace
  lookup-emplace_self k v [] = ground arith
  lookup-emplace_self k v ((i, w) ∷ m) = ground (arith, lookup-emplace_self k v m)

  pub lookup-emplace_ne :
      (k j : ℕ) (v : V) (m : Map V) → (k == j) ≡ false → lookup j (emplace k v m) ≡ lookup j m
  unfolding lookup emplace
  lookup-emplace_ne k j v [] h = ground arith
  lookup-emplace_ne k j v ((i, w) ∷ m) h = ground (arith, lookup-emplace_ne k j v m)

pub ruleset map_laws = (lookup-insert, lookup-erase, ==_refl)

module _ {ℓ} {V : Type ℓ} where
  -- A key that is not in the map is none of its keys.
  pub keys-ne : (k : ℕ) (m : Map V) → lookup k m ≡ none → All (λ j. (j == k) ≡ false) (keys m)
  unfolding lookup
  keys-ne k [] h = tt
  keys-ne k ((j, v) ∷ m) h = (ground arith, keys-ne k m (ground arith))
