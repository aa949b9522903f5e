-- ===== src/Io/SocketAddress/Validity.antt =====
-- No connection string makes an address out of bounds (src/common/io/socket_address.cpp): what is written
-- to the storage fits its arrays, and the length is that of the family.
use ocvsmd.Common.{
  ℕ, ◌+◌, ◌-◌, ◌≤◌, ◌<◌, ◌≡◌, refl, subst, Option, none, some, [], ◌∷◌, ◌++◌, arith, length, take,
  drop, length-append, length-replicate, replicate, ltb, ◌==◌, inl, inr, Bool-cases,
}
use ocvsmd.Io.Text.{Bytes, c_str, strtoull, strip_prefix, find_first_of, find_last_of}
use ocvsmd.Io.SocketAddress.{
  Family, inet, inet6, Storage, unspecified, unix, internet, SocketAddress, Pton, address,
  malformed, fails, Inet, ParseResult, success, failure, unix_path, abstract_path, sun_path_size,
  sockaddr_size, zero_filled, parse, in_prefix, or_else, Endpoint, endpoint, read_port, port_read,
  after_bracket, bracketed, with_colon, unbracketed, extract_family_host_and_port, starts_bracketed,
  of_endpoint, converted, try_parse_as_wildcard, is_star, unix_prefix, abstract_prefix, tcp_prefix,
}

abbrev pub address_size : Family → ℕ
address_size inet = 4
address_size inet6 = 16

abbrev pub Fits : ℕ → Storage → Type 0
Fits addr_len unspecified = ⊥
Fits addr_len (unix sun_path) =
    (length sun_path ≡ sun_path_size) × (2 < addr_len) × (addr_len ≤ 2 + sun_path_size)
Fits addr_len (internet family bytes port) =
    (length bytes ≡ address_size family) × (port ≤ 65535) × (addr_len ≡ sockaddr_size family)

abbrev pub IsValid : SocketAddress → Type 0
IsValid a = Fits a.addr_len a.addr_storage

-- `inet_pton` writes an address of its family's size.
abbrev pub IsSized : Inet → Type 0
IsSized net =
    (family : Family) (text bytes : Bytes)
    → net.pton family text ≡ address bytes
    → length bytes ≡ address_size family

abbrev Valid : ParseResult → Type 0
Valid (success a) = IsValid a
Valid (failure e) = Unit

length-c_str : (s : Bytes) → length (c_str s) ≤ length s
unfolding c_str
length-c_str [] = omega arith
length-c_str (c ∷ s) = ground (arith, length-c_str s)

length-zero_filled : (size : ℕ) (s : Bytes) → length s ≤ size → length (zero_filled size s) ≡ size
length-zero_filled size s h = omega (
  arith,
  length-append {0} s (replicate (size - length s) 0),
  length-replicate {A = ℕ} (size - length s) 0,
)

unix_path-Valid : (p : Bytes) → Valid (unix_path p)
unix_path-Valid p = elim (Bool-cases (ltb sun_path_size (length p + 1))) [
  | inl long ↦ rw long tt
  | inr fits ↦ rw fits (
    length-zero_filled sun_path_size (c_str p) (ground (arith, length-c_str p)),
    omega arith,
    ground arith,
  )
]

abstract_path-Valid : (p : Bytes) → Valid (abstract_path p)
abstract_path-Valid p = elim (Bool-cases (ltb (sun_path_size - 1) (length p + 1))) [
  | inl long ↦ rw long tt
  | inr fits ↦ rw fits (
    length-zero_filled sun_path_size (0 ∷ p ++ 0 ∷ [])
        (ground (arith, length-append {0} p (0 ∷ []))),
    omega arith,
    ground arith,
  )
]

-- A port that is read is one of 16 bits.
abbrev PortFits : Option ℕ → Type 0
PortFits none = Unit
PortFits (some port) = port ≤ 65535

port_read-PortFits : (r : ℕ × Bytes) → PortFits (port_read r)
port_read-PortFits (port, []) = elim (Bool-cases (ltb 65535 port)) [
  | inl large ↦ rw large tt
  | inr small ↦ rw small (ground arith)
]
port_read-PortFits (port, c ∷ rest) = tt

read_port-PortFits : (s : Bytes) (hint : ℕ) → hint ≤ 65535 → PortFits (read_port s hint)
unfolding read_port
read_port-PortFits [] hint h = h
read_port-PortFits (c ∷ s) hint h = port_read-PortFits (strtoull (c_str (c ∷ s)))

abbrev EndpointFits : Option Endpoint → Type 0
EndpointFits none = Unit
EndpointFits (some e) = e.port ≤ 65535

endpoint-EndpointFits :
    (family : Family) (host : Bytes) (port : Option ℕ)
    → PortFits port
    → EndpointFits (endpoint family host port)
endpoint-EndpointFits family host none h = tt
endpoint-EndpointFits family host (some port) h = h

module _ (hint : ℕ) (h : hint ≤ 65535) where
  after_bracket-EndpointFits : (host s : Bytes) → EndpointFits (after_bracket host s hint)
  after_bracket-EndpointFits host [] = h
  after_bracket-EndpointFits host (c ∷ s) = elim (Bool-cases (c == b':')) [
    | inl colon ↦
        rw colon (endpoint-EndpointFits inet6 host (read_port s hint) (read_port-PortFits s hint h))
    | inr other ↦ rw other tt
  ]

  bracketed-EndpointFits : (s : Bytes) (pos : Option ℕ) → EndpointFits (bracketed s pos hint)
  bracketed-EndpointFits s none = tt
  bracketed-EndpointFits s (some pos) =
      after_bracket-EndpointFits (take (pos - 1) (drop 1 s)) (drop (pos + 1) s)

  with_colon-EndpointFits :
      (s : Bytes) (pos : ℕ) (second : Option ℕ) → EndpointFits (with_colon s pos second hint)
  with_colon-EndpointFits s pos none =
      endpoint-EndpointFits inet (take pos s) (read_port (drop (pos + 1) s) hint)
        (read_port-PortFits (drop (pos + 1) s) hint h)
  with_colon-EndpointFits s pos (some second) = h

  unbracketed-EndpointFits : (s : Bytes) (pos : Option ℕ) → EndpointFits (unbracketed s pos hint)
  unbracketed-EndpointFits s none = h
  unbracketed-EndpointFits s (some pos) =
      with_colon-EndpointFits s pos (find_first_of b':' (drop (pos + 1) s))

  extract-EndpointFits : (s : Bytes) → EndpointFits (extract_family_host_and_port s hint)
  unfolding extract_family_host_and_port
  extract-EndpointFits s = elim (Bool-cases (starts_bracketed (find_first_of b'[' s))) [
    | inl hit ↦ rw hit (bracketed-EndpointFits s (find_last_of b']' s))
    | inr miss ↦ rw miss (unbracketed-EndpointFits s (find_first_of b':' s))
  ]

  module _ (net : Inet) (sized : IsSized net) where
    converted-Valid :
        (e : Endpoint) (p : Pton)
        → e.port ≤ 65535
        → net.pton e.family (c_str e.host) ≡ p
        → Valid (converted net e.family e.port p)
    converted-Valid e (address bytes) k same = (sized e.family (c_str e.host) bytes same, k, refl)
    converted-Valid e malformed k same = tt
    converted-Valid e (fails n) k same = tt

    of_endpoint-Valid : (o : Option Endpoint) → EndpointFits o → Valid (of_endpoint net o)
    unfolding try_parse_as_wildcard
    of_endpoint-Valid none k = tt
    of_endpoint-Valid (some e) k = elim (Bool-cases (is_star e.host)) [
      | inl star ↦ rw star (refl, k, refl)
      | inr named ↦ rw named (converted-Valid e (net.pton e.family (c_str e.host)) k refl)
    ]

    or_else-Valid :
        (f : Bytes → ParseResult) (o : Option Bytes) (r : ParseResult)
        → ((s : Bytes) → Valid (f s))
        → Valid r
        → Valid (or_else net (in_prefix f o) r)
    or_else-Valid f none r each v = v
    or_else-Valid f (some s) r each v = each s

    parse-Valid : (s : Bytes) → Valid (parse net s hint)
    unfolding parse
    parse-Valid s = or_else-Valid unix_path (strip_prefix unix_prefix s) _ unix_path-Valid (
        or_else-Valid abstract_path (strip_prefix abstract_prefix s) _ abstract_path-Valid (
          or_else-Valid (λ t. of_endpoint net (extract_family_host_and_port t hint))
            (strip_prefix tcp_prefix s) _
            (λ t. of_endpoint-Valid (extract_family_host_and_port t hint) (extract-EndpointFits t))
            tt))

    -- Whatever the connection string, an address that `parse` makes fits its storage: a path fills just
    -- the array for it and its length counts at most that, an Internet address has the size of its
    -- family, and the port, by the hint or by the text, has 16 bits.
    pub parse-IsValid : (s : Bytes) (a : SocketAddress) → parse net s hint ≡ success a → IsValid a
    parse-IsValid s a e = subst Valid e (parse-Valid s)
