-- ===== src/Io/SocketAddress.antt =====
-- `SocketAddress` (src/common/io/socket_address.cpp): connection strings, what an address prints as, and
-- the socket calls made with one. The address storage is the `sockaddr` that is in use; the conversions
-- between text and Internet addresses are the system's, a parameter. A system call is a script: the
-- error numbers of its next tries, zero where one succeeds.
pub mod Printing
pub mod Calls
pub mod Validity
pub mod RoundTrip
pub mod UnixNames
use ocvsmd.Common.{
  ℕ, suc, ◌+◌, ◌-◌, Bool, true, false, ◌&&◌, ◌||◌, Option, none, some, List, [], ◌∷◌, ◌++◌, ◌==◌,
  ltb, if◌then◌else◌, length, take, drop, replicate, get_elem?,
}
use ocvsmd.Error.{Error, OptError, error, errno_to_error, invalid_argument}
use ocvsmd.Error.Errno
use ocvsmd.Io.Text.{Bytes, strip_prefix, find_first_of, find_last_of, c_str, strtoull, decimal}

pub data Family : Type 0 where
  inet inet6 : Family

-- `addr_storage_`, by its family
pub data Storage : Type 0 where
  unspecified : Storage
  unix : Bytes → Storage
  internet : Family → Bytes → ℕ → Storage

pub record SocketAddress : Type 0 where
  pub is_wildcard : Bool
  pub addr_len : ℕ
  pub addr_storage : Storage

-- The sizes of Linux: `sockaddr_un::sun_path`, its offset, `sockaddr_in` and `sockaddr_in6`.
abbrev pub sun_path_size : ℕ
sun_path_size = 108

abbrev pub sun_path_offset : ℕ
sun_path_offset = 2

abbrev pub sockaddr_size : Family → ℕ
sockaddr_size inet = 16
sockaddr_size inet6 = 28

abbrev pub any_address : Bytes
any_address = replicate 16 0

-- What `inet_pton` gives: an address, a text that is none, or a failure.
pub data Pton : Type 0 where
  address : Bytes → Pton
  malformed : Pton
  fails : ℕ → Pton

pub record Inet : Type 0 where
  pub pton : Family → Bytes → Pton
  pub ntop : Family → Bytes → Option Bytes

pub data ParseResult : Type 0 where
  success : SocketAddress → ParseResult
  failure : Error → ParseResult

abbrev pub unix_prefix : Bytes
unix_prefix = b'u' ∷ b'n' ∷ b'i' ∷ b'x' ∷ b':' ∷ []

abbrev pub abstract_prefix : Bytes
abstract_prefix =
    b'u' ∷ b'n' ∷ b'i' ∷ b'x' ∷ b'-' ∷ b'a' ∷ b'b' ∷ b's' ∷ b't' ∷ b'r' ∷ b'a' ∷ b'c' ∷ b't' ∷ b':'
    ∷ []

abbrev pub tcp_prefix : Bytes
tcp_prefix = b't' ∷ b'c' ∷ b'p' ∷ b':' ∷ b'/' ∷ b'/' ∷ []

-- Bytes at the front of zeroed storage.
abbrev pub zero_filled : ℕ → Bytes → Bytes
zero_filled size s = s ++ replicate (size - length s) 0

abbrev pub unix_address : Bytes → Bytes → ParseResult
unix_address path sun_path = success (record {
  is_wildcard = false;
  addr_len = sun_path_offset + length path + 1;
  addr_storage = unix (zero_filled sun_path_size sun_path);
})

abbrev pub unix_path : Bytes → ParseResult
unix_path path =
    if ltb sun_path_size (length path + 1)
    then failure (error invalid_argument)
    else unix_address path (c_str path)

abbrev pub abstract_path : Bytes → ParseResult
abstract_path path =
    if ltb (sun_path_size - 1) (length path + 1)
    then failure (error invalid_argument)
    else unix_address path (0 ∷ path ++ 0 ∷ [])

abbrev pub in_prefix : (Bytes → ParseResult) → Option Bytes → Option ParseResult
in_prefix f none = none
in_prefix f (some s) = some (f s)

unfoldable pub try_parse_as_unix_domain : Bytes → Option ParseResult
unfolding strip_prefix c_str
try_parse_as_unix_domain conn_str = in_prefix unix_path (strip_prefix unix_prefix conn_str)

unfoldable pub try_parse_as_abstract_unix_domain : Bytes → Option ParseResult
unfolding strip_prefix
try_parse_as_abstract_unix_domain conn_str =
    in_prefix abstract_path (strip_prefix abstract_prefix conn_str)

pub record Endpoint : Type 0 where
  pub family : Family
  pub host : Bytes
  pub port : ℕ

-- The port of a text, or the hint where there is none; `none` is AF_UNSPEC.
abbrev pub port_read : ℕ × Bytes → Option ℕ
port_read (maybe_port, []) = if ltb 65535 maybe_port then none else some maybe_port
port_read (maybe_port, c ∷ rest) = none

unfoldable pub read_port : Bytes → ℕ → Option ℕ
unfolding strtoull c_str
read_port [] port_hint = some port_hint
read_port (c ∷ port_part) port_hint = port_read (strtoull (c_str (c ∷ port_part)))

abbrev pub endpoint : Family → Bytes → Option ℕ → Option Endpoint
endpoint family host none = none
endpoint family host (some port) = some (record { family = family; host = host; port = port })

-- After the closing bracket: nothing, or a colon and the port.
abbrev pub after_bracket : Bytes → Bytes → ℕ → Option Endpoint
after_bracket host [] port_hint = endpoint inet6 host (some port_hint)
after_bracket host (c ∷ port_part) port_hint =
    if c == b':' then endpoint inet6 host (read_port port_part port_hint) else none

abbrev pub bracketed : Bytes → Option ℕ → ℕ → Option Endpoint
bracketed str none port_hint = none
bracketed str (some end_bracket_pos) port_hint =
    after_bracket (take (end_bracket_pos - 1) (drop 1 str)) (drop (end_bracket_pos + 1) str)
      port_hint

abbrev pub with_colon : Bytes → ℕ → Option ℕ → ℕ → Option Endpoint
with_colon str colon_pos (some second_pos) port_hint = endpoint inet6 str (some port_hint)
with_colon str colon_pos none port_hint =
    endpoint inet (take colon_pos str) (read_port (drop (colon_pos + 1) str) port_hint)

abbrev pub unbracketed : Bytes → Option ℕ → ℕ → Option Endpoint
unbracketed str none port_hint = endpoint inet str (some port_hint)
unbracketed str (some colon_pos) port_hint =
    with_colon str colon_pos (find_first_of b':' (drop (colon_pos + 1) str)) port_hint

abbrev pub starts_bracketed : Option ℕ → Bool
starts_bracketed none = false
starts_bracketed (some pos) = pos == 0

unfoldable pub extract_family_host_and_port : Bytes → ℕ → Option Endpoint
unfolding find_first_of find_last_of read_port
extract_family_host_and_port str port_hint =
    if starts_bracketed (find_first_of b'[' str)
    then bracketed str (find_last_of b']' str) port_hint
    else unbracketed str (find_first_of b':' str) port_hint

-- `host == "*"`
abbrev pub is_star : Bytes → Bool
is_star [] = false
is_star (c ∷ []) = c == b'*'
is_star (c ∷ d ∷ s) = false

abbrev pub wildcard_address : ℕ → SocketAddress
wildcard_address port = record {
  is_wildcard = true;
  addr_len = sockaddr_size inet6;
  addr_storage = internet inet6 any_address port;
}

unfoldable pub try_parse_as_wildcard : Bytes → ℕ → Option SocketAddress
try_parse_as_wildcard host port = if is_star host then some (wildcard_address port) else none

module _ (net : Inet) where
  abbrev pub converted : Family → ℕ → Pton → ParseResult
  converted family port (address bytes) = success (record {
    is_wildcard = false;
    addr_len = sockaddr_size family;
    addr_storage = internet family bytes port;
  })
  converted family port malformed = failure (error invalid_argument)
  converted family port (fails e) = failure (errno_to_error e)

  abbrev pub unless_wildcard : Endpoint → Option SocketAddress → ParseResult
  unless_wildcard e (some result) = success result
  unless_wildcard e none = converted e.family e.port (net.pton e.family (c_str e.host))

  abbrev pub of_endpoint : Option Endpoint → ParseResult
  of_endpoint none = failure (error invalid_argument)
  of_endpoint (some e) = unless_wildcard e (try_parse_as_wildcard e.host e.port)

  unfoldable pub try_parse_as_tcp_address : Bytes → ℕ → Option ParseResult
  unfolding strip_prefix c_str extract_family_host_and_port try_parse_as_wildcard
  try_parse_as_tcp_address conn_str port_hint =
      in_prefix (λ addr_str. of_endpoint (extract_family_host_and_port addr_str port_hint))
        (strip_prefix tcp_prefix conn_str)

  abbrev pub or_else : Option ParseResult → ParseResult → ParseResult
  or_else none other = other
  or_else (some result) other = result

  unfoldable pub parse : Bytes → ℕ → ParseResult
  unfolding try_parse_as_unix_domain try_parse_as_abstract_unix_domain try_parse_as_tcp_address
  parse conn_str port_hint = or_else (try_parse_as_unix_domain conn_str) (
      or_else (try_parse_as_abstract_unix_domain conn_str)
        (or_else (try_parse_as_tcp_address conn_str port_hint) (failure (error invalid_argument))))
