-- ===== src/Daemon/FileProvider/Roots.antt =====
-- `popRoot` and `pushRoot` (src/daemon/engine/cyphal/file_provider.cpp).
use ocvsmd.Common.{
  ℕ, suc, ◌≡◌, refl, ap, ◌∙◌, Bool, true, false, none, some, List, [], ◌∷◌, ◌++◌, arith,
  if◌then◌else◌, inl, inr, Bool-cases,
}
use ocvsmd.Daemon.FileProvider.Paths.{FilePath, path_eq, path_eq_refl}
use ocvsmd.Daemon.FileProvider.{
  Provider, erase_first, erase_last, set_roots, pop_front, pop_back, pop_root, push_root,
}

-- How often a path is a root.
unfoldable pub occurrences : FilePath → List FilePath → ℕ
occurrences path [] = 0
occurrences path (r ∷ rs) =
    let rest = occurrences path rs in if path_eq r path then suc rest else rest

erase_last-snoc :
    (path : FilePath) (rs : List FilePath) → erase_last path (rs ++ path ∷ []) ≡ some rs
unfolding erase_last
erase_last-snoc path [] = rw (path_eq_refl path)
erase_last-snoc path (r ∷ rs) = rw (erase_last-snoc path rs, erase_last)

erase_first-cons : (path : FilePath) (rs : List FilePath) → erase_first path (path ∷ rs) ≡ some rs
unfolding erase_first
erase_first-cons path rs = rw (path_eq_refl path)

-- A root pushed at an end and popped from the same end leaves the list of roots as it was, with no
-- undefined behaviour, and the configuration is told that list.
pub pop_root-push_root :
    (path : FilePath) (back : Bool) (p : Provider)
    → pop_root path back (push_root path back p) ≡ some (set_roots p p.roots)
unfolding pop_root push_root
pop_root-push_root path true p = rw (erase_last-snoc path p.roots)
pop_root-push_root path false p = rw (erase_first-cons path p.roots)

erase_first-absent :
    (path : FilePath) (rs : List FilePath) → occurrences path rs ≡ 0 → erase_first path rs ≡ none
unfolding erase_first occurrences
erase_first-absent path [] h = refl
erase_first-absent path (r ∷ rs) h = ground (arith, erase_first-absent path rs)

erase_last-absent :
    (path : FilePath) (rs : List FilePath) → occurrences path rs ≡ 0 → erase_last path rs ≡ none
unfolding erase_last occurrences
erase_last-absent path [] h = refl
erase_last-absent path (r ∷ rs) h = ground (arith, erase_last-absent path rs)

erase_first-split :
    (path : FilePath) (before after : List FilePath)
    → occurrences path before ≡ 0
    → erase_first path (before ++ path ∷ after) ≡ some (before ++ after)
unfolding erase_first occurrences
erase_first-split path [] after h = erase_first-cons path after
erase_first-split path (r ∷ rs) after h = elim (Bool-cases (path_eq r path)) [
  | inl hit ↦ absurd (ground (arith, hit))
  | inr miss ↦ rw (miss, erase_first-split path rs after (ground (arith, miss)), erase_first)
]

erase_last-split :
    (path : FilePath) (before after : List FilePath)
    → occurrences path after ≡ 0
    → erase_last path (before ++ path ∷ after) ≡ some (before ++ after)
unfolding erase_last
erase_last-split path [] after h =
    rw (erase_last-absent path after h, erase_last, path_eq_refl path)
erase_last-split path (r ∷ rs) after h = rw (erase_last-split path rs after h, erase_last)

-- Popping a root takes out one place of it, the first one from the front or the last one from the
-- back, keeps the order of all others, and tells the configuration the new list.
pub pop_root-present :
    (path : FilePath) (back : Bool) (p : Provider) (before after : List FilePath)
    → p.roots ≡ before ++ path ∷ after
    → occurrences path (if back then after else before) ≡ 0
    → pop_root path back p ≡ some (set_roots p (before ++ after))
unfolding pop_root
pop_root-present path true p before after e h =
    ap (λ rs. pop_back p (erase_last path rs)) e ∙ rw (erase_last-split path before after h)
pop_root-present path false p before after e h =
    ap (λ rs. pop_front p (erase_first path rs)) e ∙ rw (erase_first-split path before after h)

-- Popping a path that is no root changes nothing from the front, and is undefined behaviour from
-- the back.
pub pop_root-absent :
    (path : FilePath) (back : Bool) (p : Provider)
    → occurrences path p.roots ≡ 0
    → pop_root path back p ≡ (if back then none else some p)
unfolding pop_root
pop_root-absent path true p h = rw (erase_last-absent path p.roots h)
pop_root-absent path false p h = rw (erase_first-absent path p.roots h)
