-- ===== src/Daemon/FileProvider/Confinement.antt =====
-- What a request can reach (src/daemon/engine/cyphal/file_provider.cpp).
use ocvsmd.Common.{
  ◌≡◌, refl, ap, sym, ◌∙◌, true, Option, none, some, List, [], ◌∷◌, ◌++◌, arith, inl, inr,
  Bool-cases, Option-cases, length, drop, get_elem?, subst,
}
use ocvsmd.Daemon.FileProvider.Paths.{FilePath, starts_with-split}
use ocvsmd.Daemon.FileProvider.{
  FileSystem, Found, slash, is_slash, is_under, validate, stat_of, or_else,
  build_and_validate_root_with_path, find_first_valid_file,
}

-- The path lies strictly below the root, component by component.
pub record IsBelow (root_path path : FilePath) : Type 0 where
  pub rest : FilePath
  pub joined : path ≡ root_path ++ (slash ∷ rest)

head_slash :
    (root s : FilePath)
    → is_slash (get_elem? (root ++ s) (length root)) ≡ true
    → (rest : FilePath) × (s ≡ slash ∷ rest)
head_slash [] [] h = cc
head_slash [] (c ∷ s) h = (s, ground arith)
head_slash (r ∷ root) s h = head_slash root s h

is_under-IsBelow : (root path : FilePath) → is_under root path ≡ true → IsBelow root path
unfolding is_under
is_under-IsBelow root path h =
    let split = starts_with-split root path (ground arith) in
    let slashed : is_slash (get_elem? path (length root)) ≡ true = ground arith in
    let (rest, e) =
      head_slash root (drop (length root) path)
        (subst (λ p. is_slash (get_elem? p (length root)) ≡ true) split slashed) in
    record { rest = rest; joined = split ∙ ap (λ s. root ++ s) e }

-- Where a served path comes from: one of the roots, resolved, with the requested path behind it,
-- resolved to the served path below it.
pub data Served (fs : FileSystem) (request : FilePath) (f : Found) : List FilePath → Type 0 where
  from :
      (root : FilePath) (roots : List FilePath) (real_root : FilePath)
      → fs.realpath root ≡ some real_root
      → fs.realpath (root ++ (slash ∷ request)) ≡ some f.path
      → IsBelow real_root f.path
      → fs.stat f.path ≡ some f.stat
      → Served fs request f (root ∷ roots)
  past :
      (root : FilePath) {roots : List FilePath}
      → Served fs request f roots
      → Served fs request f (root ∷ roots)

module _ (fs : FileSystem) (request : FilePath) where
  -- The three steps at one root, from their results.
  stat_of-inv :
      (o : Option FilePath) (f : Found)
      → stat_of fs o ≡ some f
      → (o ≡ some f.path) × (fs.stat f.path ≡ some f.stat)
  stat_of-inv none f h = cc
  stat_of-inv (some path) f h = elim (Option-cases (fs.stat path)) [
    | inl e ↦ absurd (ground (arith, e))
    | inr (st, e) ↦ ground (arith, e)
  ]

  validate-inv :
      (a b : Option FilePath) (path : FilePath)
      → validate fs a b ≡ some path
      → (root : FilePath) × (a ≡ some root) × (b ≡ some path) × (is_under root path ≡ true)
  validate-inv none b path h = cc
  validate-inv (some root) none path h = cc
  validate-inv (some root) (some file) path h = elim (Bool-cases (is_under root file)) [
    | inl e ↦ (root, refl, ground (arith, e), ground (arith, e))
    | inr e ↦ absurd (ground (arith, e))
  ]

  -- Every file that a request can reach, by `GetInfo` or `Read`, lies strictly below one of the
  -- roots as the system resolves them: its path is a resolved root, a separator and more. It is
  -- what the system resolves the root and the requested path to, whatever the request says.
  pub find_first_valid_file-Served :
      (roots : List FilePath) (f : Found)
      → find_first_valid_file fs roots request ≡ some f
      → Served fs request f roots
  unfolding find_first_valid_file build_and_validate_root_with_path
  find_first_valid_file-Served [] f h = cc
  find_first_valid_file-Served (root ∷ roots) f h =
      elim (Option-cases (stat_of fs (build_and_validate_root_with_path fs root request))) [
        | inl e ↦ past root (
            find_first_valid_file-Served roots f
              (ap (λ o. or_else fs o (find_first_valid_file fs roots request)) (sym e) ∙ h))
        | inr (g, e) ↦
            let found : some g ≡ some f =
              ap (λ o. or_else fs o (find_first_valid_file fs roots request)) (sym e) ∙ h in
            let (valid, st) = stat_of-inv _ f (e ∙ found) in
            let (real_root, a, b, under) =
              validate-inv (fs.realpath root) (fs.realpath (root ++ (slash ∷ request))) f.path
                valid in
            from root roots real_root a b (is_under-IsBelow real_root f.path under) st
      ]
