-- ===== src/Daemon/FileServer/Listing.antt =====
-- What a client sees of the roots (src/daemon/engine/svc/file_server).
use ocvsmd.Common.{
  ℕ, ◌≤◌, ◌≡◌, refl, ap, ◌∙◌, false, some, List, [], ◌∷◌, ◌++◌, arith, if◌then◌else◌, ltb, length,
  inl, inr, Bool-cases,
}
use ocvsmd.Daemon.FileProvider.Paths.{FilePath}
use ocvsmd.Daemon.FileProvider.{Provider, set_roots, push_root}
use ocvsmd.Daemon.FileProvider.Roots.{occurrences, pop_root-present}
use ocvsmd.Daemon.FileServer.{
  RootRequest, completed, listed, list_roots, serve_push_root, popped, serve_pop_root,
}

listed-append : (n : ℕ) (a b : List FilePath) → listed n (a ++ b) ≡ listed n a ++ listed n b
unfolding listed
listed-append n [] b = refl
listed-append n (r ∷ rs) b = elim (Bool-cases (ltb n (length r))) [
  | inl long ↦ rw long (listed-append n rs b)
  | inr fits ↦ rw fits (ap (λ l. r ∷ l) (listed-append n rs b))
]

listed-cons :
    (n : ℕ) (path : FilePath) (rs : List FilePath)
    → length path ≤ n
    → listed n (path ∷ rs) ≡ path ∷ listed n rs
unfolding listed
listed-cons n path rs h = let fits : ltb n (length path) ≡ false = ground arith in rw fits refl

-- After `PushRoot` of a path that fits a response, `ListRoots` gives what it gave before with the path
-- at the end that was asked for, and completes the channel once, without an error.
pub list_roots-serve_push_root :
    (n : ℕ) (request : RootRequest) (p : Provider)
    → length request.item ≤ n
    → list_roots n (serve_push_root request p).1
      ≡ completed (
          if request.is_back
          then (list_roots n p).items ++ request.item ∷ []
          else request.item ∷ (list_roots n p).items)
unfolding list_roots serve_push_root push_root
list_roots-serve_push_root n request p h = elim (Bool-cases request.is_back) [
  | inl back ↦ rw back (
      ap completed (
        listed-append n p.roots (request.item ∷ [])
        ∙ ap (λ l. listed n p.roots ++ l) (listed-cons n request.item [] h)))
  | inr front ↦ rw front (ap completed (listed-cons n request.item p.roots h))
]

-- After `PopRoot` of a root that fits a response, `ListRoots` gives what it gave before without one
-- place of that root, the last one or the first one, as asked for; the order of all others stays.
pub list_roots-serve_pop_root :
    (n : ℕ) (request : RootRequest) (p : Provider) (before after : List FilePath)
    → length request.item ≤ n
    → p.roots ≡ before ++ request.item ∷ after
    → occurrences request.item (if request.is_back then after else before) ≡ 0
    → (q : Provider) × (serve_pop_root request p ≡ some (completed [], q))
      × ((list_roots n p).items ≡ listed n before ++ request.item ∷ listed n after)
      × (list_roots n q ≡ completed (listed n before ++ listed n after))
unfolding list_roots serve_pop_root
list_roots-serve_pop_root n request p before after h e once = (
  set_roots p (before ++ after),
  ap popped (pop_root-present request.item request.is_back p before after e once),
  ap (listed n) e
      ∙ listed-append n before (request.item ∷ after)
      ∙ ap (λ l. listed n before ++ l) (listed-cons n request.item after h),
  ap completed (listed-append n before after),
)
