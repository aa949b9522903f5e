-- ===== src/Common/Map/Keys.antt =====
-- The keys of an association list: no key has two entries, and which keys are there.
use ocvsmd.Common.Tests.{◌==◌, Bool-cases}
use ocvsmd.Common.Lists.{All}
use Prim.Native.Nat.{ℕ}
use mathlib.Core.Path.{◌≡◌, refl, ◌∙◌, subst}
use mathlib.Core.Logic.{◌≢◌, inl, inr}
use mathlib.Core.Bool.{false}
use mathlib.Core.Option.{none}
use mathlib.Core.List.{List, [], ◌∷◌}
use native.Mathlib.Omega.{arith}
use ocvsmd.Common.Map.{
  Map, keys, lookup, insert, emplace, erase, lookup-insert, lookup-erase, keys-ne,
}

abbrev pub Others : ℕ → List ℕ → Type 0
Others n = All (λ k. (k == n) ≡ false)

abbrev pub NoRepeat : List ℕ → Type 0
NoRepeat [] = Unit
NoRepeat (n ∷ ns) = Others n ns × NoRepeat ns

module _ {V : Type 0} where
  -- No key has two entries.
  unfoldable pub Distinct : Map V → Type 0
  Distinct [] = Unit
  Distinct ((k, c) ∷ m) = (lookup k m ≡ none) × Distinct m

  emplace-absent :
      (k j : ℕ) (c : V) (m : Map V)
      → (k == j) ≡ false
      → lookup j m ≡ none
      → lookup j (emplace k c m) ≡ none
  unfolding emplace lookup
  emplace-absent k j c [] ne h = rw ne refl
  emplace-absent k j c ((i, d) ∷ m) ne h = ground (arith, emplace-absent k j c m ne)

  pub emplace-Distinct : (k : ℕ) (c : V) (m : Map V) → Distinct m → Distinct (emplace k c m)
  unfolding emplace Distinct lookup
  emplace-Distinct k c [] h = (refl, tt)
  emplace-Distinct k c ((i, d) ∷ m) h = elim (Bool-cases (i == k)) [
    | inl hit ↦ rw hit h
    | inr miss ↦
        rw miss (emplace-absent k i c m (ground (arith, miss)) h.0, emplace-Distinct k c m h.1)
  ]

  pub lookup-nil : (k : ℕ) → lookup {V = V} k [] ≡ none
  unfolding lookup
  lookup-nil k = refl

  pub insert-Distinct : (k : ℕ) (c : V) (m : Map V) → Distinct m → Distinct (insert k c m)
  unfolding insert Distinct
  insert-Distinct k c [] h = (lookup-nil k, tt)
  insert-Distinct k c ((i, d) ∷ m) h = elim (Bool-cases (i == k)) [
    | inl hit ↦ rw hit (subst (λ j. lookup j m ≡ none) (ground (arith, hit)) h.0, h.1)
    | inr miss ↦
        rw miss (lookup-insert k i c m ∙ (ground (arith, miss, h.0)), insert-Distinct k c m h.1)
  ]

  pub erase-Distinct : (k : ℕ) (m : Map V) → Distinct m → Distinct (erase k m)
  unfolding erase Distinct
  erase-Distinct k [] h = tt
  erase-Distinct k ((i, d) ∷ m) h = elim (Bool-cases (i == k)) [
    | inl hit ↦ rw hit (erase-Distinct k m h.1)
    | inr miss ↦ rw miss (lookup-erase k i m ∙ ground (arith, h.0), erase-Distinct k m h.1)
  ]

  -- Keys that have an entry, and none of them twice.
  abbrev pub Present : Map V → List ℕ → Type 0
  Present m = All (λ n. lookup n m ≢ none)

  pub keys-NoRepeat : (m : Map V) → Distinct m → NoRepeat (keys m)
  unfolding Distinct
  keys-NoRepeat [] h = tt
  keys-NoRepeat ((k, c) ∷ m) h = (keys-ne k m h.0, keys-NoRepeat m h.1)

  pub keys-Present : (m : Map V) → Present m (keys m)
  unfolding lookup
  keys-Present [] = tt
  keys-Present ((k, c) ∷ m) = (λ e. ground (arith, e), weaken (keys m) (keys-Present m))
    where
      weaken : (ns : List ℕ) → Present m ns → Present ((k, c) ∷ m) ns
      weaken [] h = tt
      weaken (n ∷ ns) h = (λ e. h.0 (ground (arith, e)), weaken ns h.1)

  pub erase-Present :
      (n : ℕ) (m : Map V) (ns : List ℕ) → Others n ns → Present m ns → Present (erase n m) ns
  erase-Present n m [] o h = tt
  erase-Present n m (k ∷ ns) o h =
      (λ e. h.0 (ground (arith, lookup-erase n k m, o.0, e)), erase-Present n m ns o.1 h.1)

  pub insert-Present :
      (n : ℕ) (c : V) (m : Map V) (ns : List ℕ)
      → Others n ns
      → Present m ns
      → Present (insert n c m) ns
  insert-Present n c m [] o h = tt
  insert-Present n c m (k ∷ ns) o h =
      (λ e. h.0 (ground (arith, lookup-insert n k c m, o.0, e)), insert-Present n c m ns o.1 h.1)
