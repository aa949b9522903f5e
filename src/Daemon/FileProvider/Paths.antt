-- ===== src/Daemon/FileProvider/Paths.antt =====
-- Paths as bytes: their comparison (src/daemon/engine/cyphal/file_provider.cpp).
use ocvsmd.Common.{
  ℕ, ◌≡◌, refl, ◌↔◌, Bool, true, false, ◌&&◌, List, [], ◌∷◌, ◌++◌, ◌==◌, arith, drop, length,
}

abbrev pub FilePath : Type 0
FilePath = List ℕ

-- `==` of strings.
unfoldable pub path_eq : FilePath → FilePath → Bool
path_eq [] [] = true
path_eq [] (b ∷ bs) = false
path_eq (a ∷ as') [] = false
path_eq (a ∷ as') (b ∷ bs) = (a == b) && path_eq as' bs

-- `0 == s.compare(0, prefix.size(), prefix)`
unfoldable pub starts_with : FilePath → FilePath → Bool
starts_with [] s = true
starts_with (p ∷ ps) [] = false
starts_with (p ∷ ps) (c ∷ s) = (c == p) && starts_with ps s

pub path_eq_iff : (a b : FilePath) → (path_eq a b ≡ true) ↔ (a ≡ b)
unfolding path_eq
path_eq_iff [] [] = (λ h. refl, λ h. refl)
path_eq_iff [] (b ∷ bs) = (λ h. cc, λ h. cc)
path_eq_iff (a ∷ as') [] = (λ h. cc, λ h. cc)
path_eq_iff (a ∷ as') (b ∷ bs) = ground (arith, path_eq_iff as' bs)

pub path_eq_refl : (a : FilePath) → path_eq a a ≡ true
path_eq_refl a = (path_eq_iff a a).1 refl

-- A string with a prefix is the prefix and the rest.
pub starts_with-split : (ps s : FilePath) → starts_with ps s ≡ true → s ≡ ps ++ drop (length ps) s
unfolding starts_with
starts_with-split [] s h = refl
starts_with-split (p ∷ ps) [] h = cc
starts_with-split (p ∷ ps) (c ∷ s) h = ground (arith, starts_with-split ps s)
