-- ===== src/Tests/FileProvider.antt =====
-- src/daemon/engine/cyphal/file_provider.cpp at a concrete file system.
use ocvsmd.Common.{
  ℕ, ap, ◌≤◌, ◌≡◌, ◌≢◌, refl, true, false, Option, none, some, List, [], ◌∷◌, ◌++◌, arith, take,
  drop, length, if◌then◌else◌, length-take,
}
use ocvsmd.Daemon.FileProvider.Paths.{FilePath, path_eq, starts_with}
use ocvsmd.Daemon.FileProvider.{
  Provider, FileSystem, Stat, Found, bytes, ok, slash, set_roots, make, pop_root,
  find_first_valid_file, build_and_validate_root_with_path, is_under, serve_read_request,
}
use ocvsmd.Daemon.FileProvider.Roots.{occurrences, pop_root-present, pop_root-absent}
use ocvsmd.Daemon.FileProvider.Confinement.{Served, find_first_valid_file-Served}
use ocvsmd.Daemon.FileServer.{
  RootRequest, completed, listed, list_roots, serve_push_root, serve_pop_root,
}
use ocvsmd.Daemon.FileServer.Listing.{list_roots-serve_push_root, list_roots-serve_pop_root}
use ocvsmd.Daemon.FileProvider.Reading.{Holds, serve_read_request_bounds, read_file, read_file_lem}

abbrev content : List ℕ
content = 1 ∷ 2 ∷ 3 ∷ 4 ∷ 5 ∷ []

abbrev info : Stat
info = record { st_size = 5; st_mtime = 1000; is_dir = false }

abbrev empty_root : FilePath
empty_root = slash ∷ 97 ∷ []

abbrev full_root : FilePath
full_root = slash ∷ 98 ∷ []

abbrev request : FilePath
request = 102 ∷ []

abbrev full_path : FilePath
full_path = full_root ++ (slash ∷ request)

abbrev stat_at : FilePath → Option Stat
unfolding path_eq
stat_at path = if path_eq path full_path then some info else none

-- Every path resolves to itself, and one file is there.
abbrev disk : FileSystem
disk = record {
  realpath = λ path. some path;
  stat = stat_at;
  is_readable = λ path. true;
  is_writeable = λ path. false;
  read = λ path offset n. bytes (take n (drop offset content));
}

abbrev provider : Provider
unfolding make
provider = make (empty_root ∷ full_root ∷ [])

abbrev file : Found
file = record { path = full_path; stat = info }

found_file : find_first_valid_file disk provider.roots request ≡ some file
unfolding find_first_valid_file build_and_validate_root_with_path is_under stat_at path_eq provider
    starts_with
found_file = refl

short_reads :
    (path : FilePath) (off n : ℕ) (bs : List ℕ) → disk.read path off n ≡ bytes bs → length bs ≤ n
short_reads path off n bs e =
    let taken : take n (drop off content) ≡ bs = cc in
    omega (arith, length-take n (drop off content), ap length taken)

file-Holds : Holds disk file content
file-Holds = record { size = refl; reads = λ offset n h. refl }

find_first_valid_file_example : Served disk request file provider.roots
find_first_valid_file_example =
    find_first_valid_file-Served disk request provider.roots file found_file

serve_read_request_bounds_example :
    (length (serve_read_request disk 2 provider request 1).value ≤ 2)
    × ((serve_read_request disk 2 provider request 1).error ≢ ok
        → (serve_read_request disk 2 provider request 1).value ≡ [])
serve_read_request_bounds_example = serve_read_request_bounds disk 2 provider request 1 short_reads

read_file_example : read_file disk 2 provider request 6 0 ≡ some content
read_file_example =
    read_file_lem disk 2 provider request file content (omega arith) found_file file-Holds

full_root_first : occurrences full_root (empty_root ∷ []) ≡ 0
unfolding occurrences path_eq
full_root_first = refl

pop_root-present_example :
    pop_root full_root false provider ≡ some (set_roots provider (empty_root ∷ []))
unfolding make
pop_root-present_example =
    pop_root-present full_root false provider (empty_root ∷ []) [] refl full_root_first

no_such_root : occurrences request provider.roots ≡ 0
unfolding make occurrences path_eq
no_such_root = refl

pop_root-absent_example : pop_root request true provider ≡ none
pop_root-absent_example = pop_root-absent request true provider no_such_root

abbrev pushing : RootRequest
pushing = record { item = request; is_back = true }

list_roots-serve_push_root_example :
    list_roots 255 (serve_push_root pushing provider).1
    ≡ completed ((list_roots 255 provider).items ++ request ∷ [])
list_roots-serve_push_root_example = list_roots-serve_push_root 255 pushing provider (omega arith)

abbrev popping : RootRequest
popping = record { item = full_root; is_back = false }

list_roots-serve_pop_root_example :
    (q : Provider) × (serve_pop_root popping provider ≡ some (completed [], q))
    × ((list_roots 255 provider).items ≡ listed 255 (empty_root ∷ []) ++ full_root ∷ listed 255 [])
    × (list_roots 255 q ≡ completed (listed 255 (empty_root ∷ []) ++ listed 255 []))
unfolding make
list_roots-serve_pop_root_example =
    list_roots-serve_pop_root 255 popping provider (empty_root ∷ []) [] (omega arith) refl
      full_root_first
