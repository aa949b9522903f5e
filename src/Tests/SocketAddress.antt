-- ===== src/Tests/SocketAddress.antt =====
-- src/common/io/socket_address.cpp at concrete connection strings.
use ocvsmd.Common.{
  ℕ, ◌+◌, ◌<◌, ◌≤◌, ◌≡◌, refl, ◌⊎◌, true, false, none, some, [], ◌∷◌, ◌++◌, map, arith, length,
}
use ocvsmd.Error.{error, invalid_argument}
use ocvsmd.Error.Errno
use ocvsmd.Io.Text.{Bytes, find_first_of, c_str, strtoull}
use ocvsmd.Io.SocketAddress.{
  Family, inet, inet6, unix, internet, SocketAddress, Pton, address, malformed, Inet, success,
  failure, parse, tcp_prefix, unix_prefix, abstract_prefix, sun_path_size,
  extract_family_host_and_port,
}
use ocvsmd.Io.SocketAddress.Printing.{to_string}
use ocvsmd.Io.SocketAddress.Calls.{
  Accepted, connection, fails, client_of, accept, accept_lem, connect, bind, socket, made,
}
use ocvsmd.Io.SocketAddress.Validity.{IsValid, IsSized, parse-IsValid}
use ocvsmd.Io.SocketAddress.RoundTrip.{IsHost, host_address, parse-to_string}
use ocvsmd.Io.SocketAddress.UnixNames.{parse-abstract_name, parse-unix_path}

-- "1.2.3.4" is the one address that this system knows.
abbrev host : Bytes
host = b'1' ∷ b'.' ∷ b'2' ∷ b'.' ∷ b'3' ∷ b'.' ∷ b'4' ∷ []

abbrev bytes : Bytes
bytes = 1 ∷ 2 ∷ 3 ∷ 4 ∷ []

abbrev only_one : Family → Bytes → Pton
only_one inet (b ∷ text) = address bytes
only_one inet [] = malformed
only_one inet6 text = malformed

abbrev one_host : Inet
one_host = record { pton = only_one; ntop = λ family b. some host }

abbrev at_port : ℕ → SocketAddress
at_port port = record {
  is_wildcard = false;
  addr_len = 16;
  addr_storage = internet inet bytes port;
}

host-IsHost : IsHost inet host
unfolding c_str find_first_of
host-IsHost = record { clean = refl; named = refl; unmarked = (refl, refl) }

parse-to_string_example :
    parse one_host (tcp_prefix ++ to_string one_host (at_port 8080)) 0 ≡ success (at_port 8080)
parse-to_string_example =
    parse-to_string one_host 0 (at_port 8080)
      (host_address inet bytes host 8080 refl refl host-IsHost (omega arith))

hexadecimal : strtoull (b'0' ∷ b'x' ∷ b'1' ∷ b'F' ∷ []) ≡ (31, [])
unfolding strtoull
hexadecimal = refl

octal : strtoull (b' ' ∷ b'0' ∷ b'1' ∷ b'7' ∷ b'8' ∷ []) ≡ (15, b'8' ∷ [])
unfolding strtoull
octal = refl

no_number : strtoull (b'+' ∷ b'x' ∷ []) ≡ (0, b'+' ∷ b'x' ∷ [])
unfolding strtoull
no_number = refl

negative : strtoull (b'-' ∷ b'1' ∷ []) ≡ (18446744073709551615, [])
unfolding strtoull
negative = refl

-- `[::1]:80`
bracketed_host :
    extract_family_host_and_port (b'[' ∷ b':' ∷ b':' ∷ b'1' ∷ b']' ∷ b':' ∷ b'8' ∷ b'0' ∷ []) 5
    ≡ some (record { family = inet6; host = b':' ∷ b':' ∷ b'1' ∷ []; port = 80 })
unfolding extract_family_host_and_port
bracketed_host = refl

unclosed : extract_family_host_and_port (b'[' ∷ b':' ∷ b':' ∷ []) 5 ≡ none
unfolding extract_family_host_and_port
unclosed = refl

large_port :
    extract_family_host_and_port (b'a' ∷ b':' ∷ b'6' ∷ b'5' ∷ b'5' ∷ b'3' ∷ b'6' ∷ []) 5 ≡ none
unfolding extract_family_host_and_port
large_port = refl

host_only :
    extract_family_host_and_port host 5 ≡ some (record { family = inet; host = host; port = 5 })
unfolding extract_family_host_and_port
host_only = refl

only_one-IsSized : IsSized one_host
only_one-IsSized inet (b ∷ text) out h = ground (arith, h)
only_one-IsSized inet [] out h = cc
only_one-IsSized inet6 text out h = cc

host_with_hint : parse one_host (tcp_prefix ++ host) 7 ≡ success (at_port 7)
unfolding parse
host_with_hint = refl

parse-IsValid_example : IsValid (at_port 7)
parse-IsValid_example =
    parse-IsValid 7 (omega arith) one_host only_one-IsSized (tcp_prefix ++ host) (at_port 7)
      host_with_hint

abbrev name : Bytes
name = b'd' ∷ 0 ∷ b'x' ∷ []

parse-abstract_name_example :
    ((length name + 1 < sun_path_size)
      × (a : SocketAddress) × (parse one_host (abstract_prefix ++ name) 0 ≡ success a)
      × (to_string one_host a ≡ abstract_prefix ++ name))
    ⊎ ((sun_path_size ≤ length name + 1)
        × (parse one_host (abstract_prefix ++ name) 0 ≡ failure (error invalid_argument)))
parse-abstract_name_example = parse-abstract_name one_host name 0

path-clean : c_str (b'/' ∷ b'a' ∷ []) ≡ b'/' ∷ b'a' ∷ []
unfolding c_str
path-clean = refl

parse-unix_path_example :
    (a : SocketAddress) × (parse one_host (unix_prefix ++ b'/' ∷ b'a' ∷ []) 0 ≡ success a)
    × (to_string one_host a ≡ (unix_prefix ++ b'/' ∷ b'a' ∷ []) ++ 0 ∷ [])
parse-unix_path_example = parse-unix_path one_host b'/' (b'a' ∷ []) 0 path-clean (omega arith)

abbrev local : Accepted
local = connection 9 (unix []) (Errno.eintr ∷ 0 ∷ []) []

accept_example :
    accept (map fails (Errno.eintr ∷ Errno.econnaborted ∷ []) ++ local ∷ []) ≡ (client_of local, [])
accept_example = accept_lem (Errno.eintr ∷ Errno.econnaborted ∷ []) local [] (refl, (refl, tt)) tt

in_background : connect (Errno.eintr ∷ Errno.einprogress ∷ []) ≡ none
unfolding connect
in_background = refl

told_no_delay : socket (at_port 80) true [] [] [] ≡ made true
unfolding socket
told_no_delay = refl

bound_despite_flag : bind (at_port 80) (Errno.einval ∷ []) [] ≡ none
unfolding bind
bound_despite_flag = refl
