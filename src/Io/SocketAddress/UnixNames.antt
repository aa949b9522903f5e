-- ===== src/Io/SocketAddress/UnixNames.antt =====
-- Names in the Unix domain, as a file and in the abstract domain: what they parse to and print as
-- (src/common/io/socket_address.cpp).
use ocvsmd.Common.{
  ℕ, zero, suc, ◌+◌, ◌-◌, ◌≤◌, ◌<◌, ◌≡◌, refl, sym, ◌∙◌, ap, false, [], ◌∷◌, ◌++◌, arith, length,
  take, take-append, length-append, ltb, ◌==◌, ◌⊎◌, inl, inr, Bool-cases, append_assoc, replicate,
}
use ocvsmd.Error.{error, invalid_argument}
use ocvsmd.Io.Text.{Bytes, c_str}
use ocvsmd.Io.SocketAddress.{
  unix, SocketAddress, Inet, success, failure, unix_path, abstract_path, sun_path_size, zero_filled,
  parse, unix_prefix, abstract_prefix,
}
use ocvsmd.Io.SocketAddress.Printing.{to_string}

module _ (net : Inet) where
  parse-abstract : (p : Bytes) (hint : ℕ) → parse net (abstract_prefix ++ p) hint ≡ abstract_path p
  unfolding parse
  parse-abstract p hint = refl

  parse-unix : (p : Bytes) (hint : ℕ) → parse net (unix_prefix ++ p) hint ≡ unix_path p
  unfolding parse
  parse-unix p hint = refl

  abbrev abstract_address : Bytes → SocketAddress
  abstract_address p = record {
    is_wildcard = false;
    addr_len = 2 + length p + 1;
    addr_storage = unix (zero_filled sun_path_size (0 ∷ p ++ 0 ∷ []));
  }

  abstract-to_string : (p : Bytes) → to_string net (abstract_address p) ≡ abstract_prefix ++ p
  unfolding to_string
  abstract-to_string p =
      let some_path : (2 + length p + 1 - 2 == 0) ≡ false = ground arith in
      rw some_path (
        ap (λ t. abstract_prefix ++ take (2 + length p + 1 - 2 - 1) t) (append_assoc p (0 ∷ []) _)
        ∙ ap (λ t. abstract_prefix ++ t) (take-append (2 + length p + 1 - 2 - 1) p _ (omega arith)))

  -- A name in the abstract domain of any bytes, nulls too, that leaves room for two nulls makes an
  -- address, and that prints as just the connection string; a longer one is refused.
  pub parse-abstract_name :
      (p : Bytes) (hint : ℕ)
      → ((length p + 1 < sun_path_size)
          × (a : SocketAddress) × (parse net (abstract_prefix ++ p) hint ≡ success a)
          × (to_string net a ≡ abstract_prefix ++ p))
        ⊎ ((sun_path_size ≤ length p + 1)
            × (parse net (abstract_prefix ++ p) hint ≡ failure (error invalid_argument)))
  parse-abstract_name p hint = elim (Bool-cases (ltb (sun_path_size - 1) (length p + 1))) [
    | inl long ↦ inr (ground arith, parse-abstract p hint ∙ rw long refl)
    | inr fits ↦ inl (
      ground arith,
      abstract_address p,
      parse-abstract p hint ∙ rw fits refl,
      abstract-to_string p,
    )
  ]

  take-zeros :
      (n k : ℕ) (xs : Bytes)
      → n ≡ length xs + 1
      → 0 < k
      → take n (xs ++ replicate k 0) ≡ xs ++ 0 ∷ []
  take-zeros n zero xs e h = absurd (omega arith)
  take-zeros n (suc k) xs e h =
      ap (take n) (sym (append_assoc xs (0 ∷ []) (replicate k 0)))
      ∙ take-append n (xs ++ 0 ∷ []) (replicate k 0) (omega (arith, length-append {0} xs (0 ∷ [])))

  c_str-visible : (c : ℕ) (p : Bytes) → c_str (c ∷ p) ≡ c ∷ p → (c == 0) ≡ false
  unfolding c_str
  c_str-visible c p h = ground (arith, h)

  abbrev unix_named : Bytes → SocketAddress
  unix_named p = record {
    is_wildcard = false;
    addr_len = 2 + length p + 1;
    addr_storage = unix (zero_filled sun_path_size p);
  }

  unix-to_string :
      (c : ℕ) (p : Bytes)
      → (c == 0) ≡ false
      → length (c ∷ p) < sun_path_size
      → to_string net (unix_named (c ∷ p)) ≡ unix_prefix ++ c ∷ p ++ 0 ∷ []
  unfolding to_string
  unix-to_string c p visible h =
      let some_path : (2 + length (c ∷ p) + 1 - 2 == 0) ≡ false = ground arith in
      rw some_path (
        rw visible (
          ap (λ t. unix_prefix ++ t)
            (take-zeros (2 + length (c ∷ p) + 1 - 2) (sun_path_size - length (c ∷ p)) (c ∷ p)
              (omega arith) (omega arith))))

  -- A path of any visible bytes that leaves room for a null makes an address that prints with that
  -- null at its end, which is part of the length.
  pub parse-unix_path :
      (c : ℕ) (p : Bytes) (hint : ℕ)
      → c_str (c ∷ p) ≡ c ∷ p
      → length (c ∷ p) < sun_path_size
      → (a : SocketAddress) × (parse net (unix_prefix ++ c ∷ p) hint ≡ success a)
        × (to_string net a ≡ (unix_prefix ++ c ∷ p) ++ 0 ∷ [])
  parse-unix_path c p hint clean h = (
    unix_named (c ∷ p),
    parse-unix (c ∷ p) hint
        ∙ (let fits : ltb sun_path_size (length (c ∷ p) + 1) ≡ false = ground arith in
            rw fits (rw clean refl)),
    unix-to_string c p (c_str-visible c p clean) h,
  )
