-- ===== src/Io/Text/Search.antt =====
-- Where the searches of src/common/io/socket_address.cpp find what they look for.
use ocvsmd.Common.{
  ℕ, ◌≡◌, refl, some, none, [], ◌∷◌, ◌++◌, arith, length, ==_refl, inl, inr, Bool-cases, ◌==◌,
}
use ocvsmd.Io.Text.{Bytes, strip_prefix, find_first_of, find_last_of}

pub strip_prefix-append : (p s : Bytes) → strip_prefix p (p ++ s) ≡ some s
unfolding strip_prefix
strip_prefix-append [] s = refl
strip_prefix-append (c ∷ p) s = rw (==_refl c) (strip_prefix-append p s)

pub strip_prefix-eq-some : (p s r : Bytes) → strip_prefix p s ≡ some r → s ≡ p ++ r
unfolding strip_prefix
strip_prefix-eq-some [] s r h = cc
strip_prefix-eq-some (c ∷ p) [] r h = cc
strip_prefix-eq-some (c ∷ p) (d ∷ s) r h = elim (Bool-cases (c == d)) [
  | inl hit ↦
      let same : c ≡ d = ground (arith, hit) in cc (same, strip_prefix-eq-some p s r (rw hit at h))
  | inr miss ↦ cc (rw miss at h)
]

module _ (c : ℕ) where
  pub find_first_of-append_none :
      (xs ys : Bytes)
      → find_first_of c xs ≡ none
      → find_first_of c ys ≡ none
      → find_first_of c (xs ++ ys) ≡ none
  unfolding find_first_of
  find_first_of-append_none [] ys h k = k
  find_first_of-append_none (x ∷ xs) ys h k = ground (arith, find_first_of-append_none xs ys, h, k)

  pub find_first_of-append :
      (xs ys : Bytes)
      → find_first_of c xs ≡ none
      → find_first_of c (xs ++ c ∷ ys) ≡ some (length xs)
  unfolding find_first_of
  find_first_of-append [] ys h = rw (==_refl c) refl
  find_first_of-append (x ∷ xs) ys h = ground (arith, find_first_of-append xs ys, h)

  pub find_last_of-append :
      (xs ys : Bytes) → find_last_of c ys ≡ none → find_last_of c (xs ++ c ∷ ys) ≡ some (length xs)
  unfolding find_last_of
  find_last_of-append [] ys h = rw (==_refl c) (rw h refl)
  find_last_of-append (x ∷ xs) ys h = rw (find_last_of-append xs ys h) refl
