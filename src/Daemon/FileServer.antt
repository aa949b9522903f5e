-- ===== src/Daemon/FileServer.antt =====
-- The file server's services (src/daemon/engine/svc/file_server): each handles the first request of a
-- channel at once, on the file provider, and completes the channel. The results of the channel's `send`
-- and `complete` are only logged by the code.
pub mod Listing
use ocvsmd.Common.{
  ℕ, Bool, true, false, Option, none, some, List, [], ◌∷◌, ltb, if◌then◌else◌, length,
}
use ocvsmd.Error.{OptError}
use ocvsmd.Daemon.FileProvider.Paths.{FilePath}
use ocvsmd.Daemon.FileProvider.{Provider, get_list_of_roots, pop_root, push_root}

-- What a channel is told: its responses in their order, and then its completions.
pub record Told : Type 0 where
  pub items : List FilePath
  pub completions : List OptError

-- `Spec::Request` of `PushRoot` and of `PopRoot`.
pub record RootRequest : Type 0 where
  pub item : FilePath
  pub is_back : Bool

abbrev pub completed : List FilePath → Told
completed items = record { items = items; completions = none ∷ [] }

-- The loop of `ListRoots`: a root that is too long for a response is left out.
unfoldable pub listed : ℕ → List FilePath → List FilePath
listed max_root_len [] = []
listed max_root_len (root ∷ roots) =
    let rest = listed max_root_len roots in
    if ltb max_root_len (length root) then rest else root ∷ rest

-- `ListRootsServiceImpl`; the first argument is the capacity of a response's path.
unfoldable pub list_roots : ℕ → Provider → Told
unfolding listed
list_roots max_root_len p = completed (listed max_root_len (get_list_of_roots p))

-- `PushRootServiceImpl`
unfoldable pub serve_push_root : RootRequest → Provider → Told × Provider
serve_push_root request p = (completed [], push_root request.item request.is_back p)

abbrev pub popped : Option Provider → Option (Told × Provider)
popped none = none
popped (some p) = some (completed [], p)

-- `PopRootServiceImpl`; `none` is the undefined behaviour of `popRoot`.
unfoldable pub serve_pop_root : RootRequest → Provider → Option (Told × Provider)
serve_pop_root request p = popped (pop_root request.item request.is_back p)
