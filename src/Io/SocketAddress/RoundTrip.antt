-- ===== src/Io/SocketAddress/RoundTrip.antt =====
-- The text of an Internet address reads back as that address (src/common/io/socket_address.cpp).
use ocvsmd.Common.{
  ℕ, suc, ◌+◌, ◌-◌, ◌≤◌, ◌<◌, ◌≡◌, refl, sym, ◌∙◌, ap, subst, false, none, some, [], ◌∷◌, ◌++◌,
  arith, length, drop, take-append, drop-append, length-append, ltb, ◌==◌, append_assoc,
}
use ocvsmd.Io.Text.{Bytes, c_str, strtoull, find_first_of, find_last_of, decimal}
use ocvsmd.Io.Text.Search.{find_first_of-append, find_first_of-append_none, find_last_of-append}
use ocvsmd.Io.Text.Decimal.{
  decimal-IsDigit, digits-find_first_of, digits-find_last_of, decimal-c_str, strtoull-decimal,
  decimal-cons,
}
use ocvsmd.Io.SocketAddress.{
  Family, inet, inet6, internet, SocketAddress, address, Inet, success, sockaddr_size, parse,
  tcp_prefix, wildcard_address, extract_family_host_and_port, read_port, port_read,
  try_parse_as_wildcard, is_star, of_endpoint, bracketed, unbracketed, endpoint, after_bracket,
  with_colon,
}
use ocvsmd.Io.SocketAddress.Printing.{to_string, host_and_port, with_port}

-- A host that an address prints as: no null, not the star, and in IPv4 no bracket and no colon.
abbrev pub Unmarked : Family → Bytes → Type 0
Unmarked inet host = (find_first_of b'[' host ≡ none) × (find_first_of b':' host ≡ none)
Unmarked inet6 host = Unit

pub record IsHost (family : Family) (host : Bytes) : Type 0 where
  pub clean : c_str host ≡ host
  pub named : is_star host ≡ false
  pub unmarked : Unmarked family host

read_port-cons :
    (t : Bytes) (hint c : ℕ) (s : Bytes)
    → t ≡ c ∷ s
    → read_port t hint ≡ port_read (strtoull (c_str t))
unfolding read_port
read_port-cons t hint c s e =
    subst (λ u. read_port u hint ≡ port_read (strtoull (c_str u))) (sym e) refl

read_port-decimal : (port hint : ℕ) → port ≤ 65535 → read_port (decimal 5 port) hint ≡ some port
read_port-decimal port hint h =
    let (c, s, e) = decimal-cons 4 port in
    let small : ltb 65535 port ≡ false = ground arith in
    read_port-cons (decimal 5 port) hint c s e
    ∙ rw (decimal-c_str 5 port)
        (rw (strtoull-decimal 4 port (omega arith) (omega arith)) (rw small refl))

colon_first : (c port : ℕ) → 58 < c → find_first_of c (b':' ∷ decimal 5 port) ≡ none
unfolding find_first_of
colon_first c port h =
    let other : (c == b':') ≡ false = ground arith in
    rw other
      (rw (digits-find_first_of c (decimal 5 port) (omega arith) (decimal-IsDigit 5 port)) refl)

colon_last : (c port : ℕ) → 58 < c → find_last_of c (b':' ∷ decimal 5 port) ≡ none
unfolding find_last_of
colon_last c port h =
    let other : (c == b':') ≡ false = ground arith in
    rw other
      (rw (digits-find_last_of c (decimal 5 port) (omega arith) (decimal-IsDigit 5 port)) refl)

drop-after :
    (n : ℕ) (xs : Bytes) (c : ℕ) (ys : Bytes) → n ≡ length xs + 1 → drop n (xs ++ c ∷ ys) ≡ ys
drop-after n xs c ys h =
    ap (drop n) (sym (append_assoc xs (c ∷ []) ys))
    ∙ drop-append n (xs ++ c ∷ []) ys (omega (arith, length-append {0} xs (c ∷ [])))

module _ (host : Bytes) (port hint : ℕ) (h : port ≤ 65535) where
  extract-inet :
      find_first_of b'[' host ≡ none
      → find_first_of b':' host ≡ none
      → extract_family_host_and_port (with_port host port) hint
        ≡ some (record { family = inet; host = host; port = port })
  unfolding extract_family_host_and_port
  extract-inet no_bracket no_colon =
      rw
        (find_first_of-append_none b'[' host (b':' ∷ decimal 5 port) no_bracket
          (colon_first b'[' port (omega arith)))
        (ap (λ o. unbracketed str o hint) (find_first_of-append b':' host (decimal 5 port) no_colon)
          ∙ ap (λ o. with_colon str (length host) o hint)
              (ap (find_first_of b':') tail
                ∙ digits-find_first_of b':' (decimal 5 port) (omega arith) (decimal-IsDigit 5 port))
          ∙ ap (λ x. endpoint inet x (read_port (drop (length host + 1) str) hint))
              (take-append (length host) host (b':' ∷ decimal 5 port) refl)
          ∙ ap (λ x. endpoint inet host (read_port x hint)) tail
          ∙ ap (endpoint inet host) (read_port-decimal port hint h))
    where
      str : Bytes
      str = with_port host port

      tail : drop (length host + 1) str ≡ decimal 5 port
      tail = drop-after (length host + 1) host b':' (decimal 5 port) refl

  extract-inet6 :
      extract_family_host_and_port (host_and_port inet6 host port) hint
      ≡ some (record { family = inet6; host = host; port = port })
  unfolding extract_family_host_and_port
  extract-inet6 =
      ap (λ o. bracketed str o hint)
        (find_last_of-append b']' (b'[' ∷ host) (b':' ∷ decimal 5 port)
          (colon_last b']' port (omega arith)))
      ∙ ap (λ x. after_bracket x (drop (suc (length host) + 1) str) hint)
          (take-append (suc (length host) - 1) host (b']' ∷ b':' ∷ decimal 5 port) (omega arith))
      ∙ ap (λ x. after_bracket host x hint) tail
      ∙ ap (endpoint inet6 host) (read_port-decimal port hint h)
    where
      str : Bytes
      str = host_and_port inet6 host port

      tail : drop (suc (length host) + 1) str ≡ b':' ∷ decimal 5 port
      tail =
          drop-after (suc (length host) + 1) (b'[' ∷ host) b']' (b':' ∷ decimal 5 port)
            (omega arith)

  extract-host_and_port :
      (family : Family)
      → Unmarked family host
      → extract_family_host_and_port (host_and_port family host port) hint
        ≡ some (record { family = family; host = host; port = port })
  extract-host_and_port inet u = extract-inet u.0 u.1
  extract-host_and_port inet6 u = extract-inet6

-- An address that has a name of its own: one that the system prints as a host that it reads back as
-- the same address, or any address at all.
pub data IsNamed (net : Inet) : SocketAddress → Type 0 where
  host_address :
      (family : Family) (bytes host : Bytes) (port : ℕ)
      → net.ntop family bytes ≡ some host
      → net.pton family host ≡ address bytes
      → IsHost family host
      → port ≤ 65535
      → IsNamed net (record {
        is_wildcard = false;
        addr_len = sockaddr_size family;
        addr_storage = internet family bytes port;
      })
  any_host : (port : ℕ) → port ≤ 65535 → IsNamed net (wildcard_address port)

module _ (net : Inet) where
  parse-tcp :
      (s : Bytes) (hint : ℕ)
      → parse net (tcp_prefix ++ s) hint ≡ of_endpoint net (extract_family_host_and_port s hint)
  unfolding parse
  parse-tcp s hint = refl

  of_endpoint-host :
      (family : Family) (bytes host : Bytes) (port : ℕ)
      → net.pton family host ≡ address bytes
      → IsHost family host
      → of_endpoint net (some (record { family = family; host = host; port = port }))
        ≡ success (record {
          is_wildcard = false;
          addr_len = sockaddr_size family;
          addr_storage = internet family bytes port;
        })
  unfolding try_parse_as_wildcard
  of_endpoint-host family bytes host port read h = rw (h.named) (rw (h.clean) (rw read refl))

  star_plain : Unmarked inet (b'*' ∷ [])
  unfolding find_first_of
  star_plain = (refl, refl)

  of_endpoint-star :
      (port : ℕ)
      → of_endpoint net (some (record { family = inet; host = b'*' ∷ []; port = port }))
        ≡ success (wildcard_address port)
  unfolding try_parse_as_wildcard
  of_endpoint-star port = refl

  -- The text of an Internet address, or of the wildcard, with the prefix for TCP reads back as just
  -- that address, whatever the hint for the port.
  pub parse-to_string :
      (hint : ℕ) (a : SocketAddress)
      → IsNamed net a
      → parse net (tcp_prefix ++ to_string net a) hint ≡ success a
  unfolding to_string
  parse-to_string hint _ (host_address family bytes host port printed read h small) =
      parse-tcp _ hint
      ∙ ap (λ t. of_endpoint net (extract_family_host_and_port t hint)) (rw printed refl)
      ∙ ap (of_endpoint net) (extract-host_and_port host port hint small family h.unmarked)
      ∙ of_endpoint-host family bytes host port read h
  parse-to_string hint _ (any_host port small) =
      parse-tcp _ hint
      ∙ ap (of_endpoint net) (extract-inet (b'*' ∷ []) port hint small star_plain.0 star_plain.1)
      ∙ of_endpoint-star port
