-- ===== src/Daemon/FileProvider.antt =====
-- `FileProviderImpl` (src/daemon/engine/cyphal/file_provider.cpp): the list of roots, the search for
-- a requested file below them, and the `GetInfo` and `Read` requests. A path is the bytes of its
-- string. The calls into the operating system are the record `FileSystem`.
pub mod Paths
pub mod Roots
pub mod Confinement
pub mod Reading
use ocvsmd.Common.{
  ℕ, zero, suc, ◌+◌, ◌-◌, ◌≤◌, ◌<◌, min, Bool, true, false, not, ◌&&◌, ◌||◌, Option, none, some,
  List, [], ◌∷◌, ◌++◌, ltb, leb, ◌==◌, if◌then◌else◌, take, drop, length, get_elem?, has_value,
}
use Paths.{FilePath, path_eq, starts_with}

-- `FileProviderImpl` with the roots that the configuration was last told.
pub record Provider : Type 0 where
  pub roots : List FilePath
  pub config_roots : List FilePath

-- The constructor: the roots of the configuration. Its loop only logs.
unfoldable pub make : List FilePath → Provider
make config_roots = record { roots = config_roots; config_roots = config_roots }

abbrev pub get_list_of_roots : Provider → List FilePath
get_list_of_roots p = p.roots

-- `std::find` over the roots and `erase`: the first root that equals the path goes, if one does.
unfoldable pub erase_first : FilePath → List FilePath → Option (List FilePath)
erase_first path [] = none
erase_first path (r ∷ rs) =
    let rest = erase_first path rs in
    if path_eq r path then some rs else elim rest [ none ↦ none | some rs' ↦ some (r ∷ rs') ]

-- The same in reverse order: the last one goes.
unfoldable pub erase_last : FilePath → List FilePath → Option (List FilePath)
erase_last path [] = none
erase_last path (r ∷ rs) = elim (erase_last path rs) [
  | some rs' ↦ some (r ∷ rs')
  | none ↦ if path_eq r path then some rs else none
]

abbrev pub set_roots : Provider → List FilePath → Provider
set_roots p roots = record p { roots = roots; config_roots = roots }

abbrev pub pop_front : Provider → Option (List FilePath) → Option Provider
pop_front p none = some p
pop_front p (some roots) = some (set_roots p roots)

-- Where the reverse search fails, `rev_it.base() - 1` is the place before the first root, which is
-- not `end()`: the code erases there, which is undefined.
abbrev pub pop_back : Provider → Option (List FilePath) → Option Provider
pop_back p none = none
pop_back p (some roots) = some (set_roots p roots)

-- `popRoot`; `none` is undefined behaviour.
unfoldable pub pop_root : FilePath → Bool → Provider → Option Provider
unfolding erase_first erase_last
pop_root path true p = pop_back p (erase_last path p.roots)
pop_root path false p = pop_front p (erase_first path p.roots)

unfoldable pub push_root : FilePath → Bool → Provider → Provider
push_root path back p = set_roots p (if back then p.roots ++ path ∷ [] else path ∷ p.roots)

-- `struct stat`, as far as it is read.
pub record Stat : Type 0 where
  pub st_size : ℕ
  pub st_mtime : ℕ
  pub is_dir : Bool

-- The outcome of opening, seeking and reading a file: the bytes, or the number of the exception.
pub data ReadResult : Type 0 where
  bytes : List ℕ → ReadResult
  failure : ℕ → ReadResult

-- `::realpath`, `::stat`, `::access` and `std::ifstream`.
pub record FileSystem : Type 0 where
  pub realpath : FilePath → Option FilePath
  pub stat : FilePath → Option Stat
  pub is_readable : FilePath → Bool
  pub is_writeable : FilePath → Bool
  pub read : FilePath → ℕ → ℕ → ReadResult

-- uavcan.file.Error.1.0
pub data FileError : Type 0 where
  ok unknown_error not_found io_error access_denied is_directory : FileError
  invalid_value file_too_large out_of_space not_supported : FileError

unfoldable pub convert_error_code : ℕ → FileError
convert_error_code code =
    if (code == 5) || (code == 1)
    then io_error
    else if code == 2
    then not_found
    else if code == 21
    then is_directory
    else if code == 28
    then out_of_space
    else if code == 13
    then access_denied
    else if code == 22
    then invalid_value
    else if code == 95
    then not_supported
    else if code == 7
    then file_too_large
    else unknown_error

abbrev pub slash : ℕ
slash = b'/'

abbrev pub is_slash : Option ℕ → Bool
is_slash none = false
is_slash (some c) = c == slash

-- The security check: the resolved path is below the resolved root, with a separator behind it.
unfoldable pub is_under : FilePath → FilePath → Bool
is_under root_path file_path =
    starts_with root_path file_path && is_slash (get_elem? file_path (length root_path))

abbrev pub kept_if : Bool → FilePath → Option FilePath
kept_if true path = some path
kept_if false path = none

-- What the search finds: the resolved path and its `stat`.
pub record Found : Type 0 where
  pub path : FilePath
  pub stat : Stat

-- The `GetInfo` response.
pub record Info : Type 0 where
  pub error : FileError
  pub size : ℕ
  pub unix_timestamp_of_last_modification : ℕ
  pub is_file_not_directory : Bool
  pub is_link : Bool
  pub is_readable : Bool
  pub is_writeable : Bool

-- The `Read` response.
pub record ReadResponse : Type 0 where
  pub error : FileError
  pub value : List ℕ

abbrev pub no_info : Info
no_info = record {
  error = not_found;
  size = 0;
  unix_timestamp_of_last_modification = 0;
  is_file_not_directory = false;
  is_link = false;
  is_readable = false;
  is_writeable = false;
}

module _ (fs : FileSystem) where
  abbrev pub validate : Option FilePath → Option FilePath → Option FilePath
  validate none file = none
  validate (some root_path) none = none
  validate (some root_path) (some file_path) = kept_if (is_under root_path file_path) file_path

  unfoldable pub build_and_validate_root_with_path : FilePath → FilePath → Option FilePath
  unfolding is_under
  build_and_validate_root_with_path root file =
      validate (fs.realpath root) (fs.realpath (root ++ (slash ∷ file)))

  -- A path that can be `stat`ed ends the search.
  abbrev pub with_stat : FilePath → Option Stat → Option Found
  with_stat path none = none
  with_stat path (some st) = some (record { path = path; stat = st })

  abbrev pub stat_of : Option FilePath → Option Found
  stat_of none = none
  stat_of (some path) = with_stat path (fs.stat path)

  abbrev pub or_else : Option Found → Option Found → Option Found
  or_else (some f) rest = some f
  or_else none rest = rest

  unfoldable pub find_first_valid_file : List FilePath → FilePath → Option Found
  unfolding build_and_validate_root_with_path
  find_first_valid_file [] request_path = none
  find_first_valid_file (root ∷ roots) request_path =
      or_else (stat_of (build_and_validate_root_with_path root request_path))
        (find_first_valid_file roots request_path)

  abbrev pub info_of : Option Found → Info
  info_of none = no_info
  info_of (some f) = record {
    error = ok;
    size = f.stat.st_size;
    unix_timestamp_of_last_modification = f.stat.st_mtime;
    is_file_not_directory = not f.stat.is_dir;
    is_link = false;
    is_readable = fs.is_readable f.path;
    is_writeable = fs.is_writeable f.path;
  }

  unfoldable pub serve_get_info_request : Provider → FilePath → Info
  unfolding find_first_valid_file
  serve_get_info_request p request_path = info_of (find_first_valid_file p.roots request_path)

  abbrev pub response_of : ReadResult → ReadResponse
  response_of (bytes bs) = record { error = ok; value = bs }
  response_of (failure code) = record { error = convert_error_code code; value = [] }

  -- Nothing at or past the end; else the next chunk.
  unfoldable pub read_chunk : ℕ → Found → ℕ → ReadResponse
  read_chunk max_data_size f offset =
      if leb f.stat.st_size offset
      then record { error = ok; value = [] }
      else response_of (fs.read f.path offset (min (f.stat.st_size - offset) max_data_size))

  abbrev pub read_of : ℕ → Option Found → ℕ → ReadResponse
  read_of max_data_size none offset = record { error = not_found; value = [] }
  read_of max_data_size (some f) offset = read_chunk max_data_size f offset

  -- `max_data_size` is the capacity of the response's `data.value`.
  unfoldable pub serve_read_request : ℕ → Provider → FilePath → ℕ → ReadResponse
  unfolding find_first_valid_file read_chunk
  serve_read_request max_data_size p request_path offset =
      read_of max_data_size (find_first_valid_file p.roots request_path) offset
