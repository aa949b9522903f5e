-- ===== src/Io/SocketAddress/Printing.antt =====
-- What an address prints as: `getPort`, `getUnixPrefixAndPath` and `toString` of
-- src/common/io/socket_address.cpp. A port has at most five digits.
use ocvsmd.Common.{ℕ, ◌-◌, Option, none, some, [], ◌∷◌, ◌++◌, ◌==◌, if◌then◌else◌, take}
use ocvsmd.Io.Text.{Bytes, decimal}
use ocvsmd.Io.SocketAddress.{
  Family, inet, inet6, Storage, unspecified, unix, internet, SocketAddress, Inet, unix_prefix,
  abstract_prefix, sun_path_offset,
}

abbrev pub port_of : Storage → ℕ
port_of unspecified = 0
port_of (unix sun_path) = 0
port_of (internet family bytes port) = port

unfoldable pub get_port : SocketAddress → ℕ
get_port a = port_of a.addr_storage

abbrev pub prefix_and_path : ℕ → Bytes → Bytes × Bytes
prefix_and_path path_len [] = (unix_prefix, [])
prefix_and_path path_len (c ∷ sun_path) =
    if path_len == 0
    then (unix_prefix, [])
    else if c == 0
    then (abstract_prefix, take (path_len - 1) sun_path)
    else (unix_prefix, take path_len (c ∷ sun_path))

unfoldable pub get_unix_prefix_and_path : ℕ → Bytes → Bytes × Bytes
get_unix_prefix_and_path addr_len sun_path = prefix_and_path (addr_len - sun_path_offset) sun_path

-- The numbers of the address families on Linux.
abbrev pub family_number : Storage → ℕ
family_number unspecified = 0
family_number (unix sun_path) = 1
family_number (internet inet bytes port) = 2
family_number (internet inet6 bytes port) = 10

abbrev pub unknown : Storage → Bytes
unknown storage =
    b'<'
    ∷ b'u'
    ∷ b'n'
    ∷ b'k'
    ∷ b'n'
    ∷ b'o'
    ∷ b'w'
    ∷ b'n'
    ∷ b'>'
    ∷ b'('
    ∷ b'f'
    ∷ b'a'
    ∷ b'm'
    ∷ b'i'
    ∷ b'l'
    ∷ b'y'
    ∷ b'='
    ∷ (decimal 5 (family_number storage) ++ b')' ∷ [])

abbrev pub with_port : Bytes → ℕ → Bytes
with_port host port = host ++ b':' ∷ decimal 5 port

abbrev pub host_and_port : Family → Bytes → ℕ → Bytes
host_and_port inet host port = with_port host port
host_and_port inet6 host port = b'[' ∷ (host ++ b']' ∷ b':' ∷ decimal 5 port)

abbrev pub shown : Family → Bytes → ℕ → Option Bytes → Bytes
shown family bytes port none = unknown (internet family bytes port)
shown family bytes port (some host) = host_and_port family host port

module _ (net : Inet) where
  abbrev pub storage_text : ℕ → Storage → Bytes
  storage_text addr_len unspecified = unknown unspecified
  storage_text addr_len (unix sun_path) =
      let (prefix, path) = get_unix_prefix_and_path addr_len sun_path in prefix ++ path
  storage_text addr_len (internet family bytes port) =
      shown family bytes port (net.ntop family bytes)

  unfoldable pub to_string : SocketAddress → Bytes
  unfolding get_port get_unix_prefix_and_path
  to_string a =
      if a.is_wildcard
      then with_port (b'*' ∷ []) (get_port a)
      else storage_text a.addr_len a.addr_storage
