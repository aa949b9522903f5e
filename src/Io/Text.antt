-- ===== src/Io/Text.antt =====
-- Text as bytes, with what src/common/io/socket_address.cpp uses of the C and C++ libraries: searches in
-- a `std::string`, the C string in one, decimal numbers as `fmt` writes them, and `strtoull` in base 0.
pub mod Decimal
pub mod Search
use ocvsmd.Common.{
  ℕ, zero, suc, ◌+◌, ◌-◌, ◌*◌, ◌/◌, ◌%◌, ◌^◌, Bool, true, false, ◌&&◌, ◌||◌, Option, none, some,
  List, [], ◌∷◌, ◌++◌, ◌==◌, ltb, leb, if◌then◌else◌,
}

abbrev pub Bytes : Type 0
Bytes = List ℕ

-- `s.compare(0, prefix.size(), prefix) == 0`, with what follows the prefix.
unfoldable pub strip_prefix : Bytes → Bytes → Option Bytes
strip_prefix [] s = some s
strip_prefix (c ∷ p) [] = none
strip_prefix (c ∷ p) (d ∷ s) = let rest = strip_prefix p s in if c == d then rest else none

abbrev pub or_after : Option ℕ → Option ℕ → Option ℕ
or_after none o = o
or_after (some i) o = some (suc i)

-- `find_first_of`
unfoldable pub find_first_of : ℕ → Bytes → Option ℕ
find_first_of c [] = none
find_first_of c (d ∷ s) = if c == d then some 0 else or_after (find_first_of c s) none

-- `find_last_of`
unfoldable pub find_last_of : ℕ → Bytes → Option ℕ
find_last_of c [] = none
find_last_of c (d ∷ s) = or_after (find_last_of c s) (if c == d then some 0 else none)

-- What a C function sees of a string: the bytes before the first null.
unfoldable pub c_str : Bytes → Bytes
c_str [] = []
c_str (c ∷ s) = let rest = c_str s in if c == 0 then [] else c ∷ rest

abbrev pub u64_max : ℕ
u64_max = 2 ^ 64 - 1

unfoldable pub is_space : ℕ → Bool
is_space c = c == 32 || (leb 9 c && leb c 13)

-- The value of a digit in bases up to 36; what is no digit has value 36.
unfoldable pub digit_value : ℕ → ℕ
digit_value c =
    if leb 48 c && leb c 57
    then c - 48
    else if leb 97 c && leb c 122
    then c - 87
    else if leb 65 c && leb c 90
    then c - 55
    else 36

unfoldable pub skip_spaces : Bytes → Bytes
unfolding is_space
skip_spaces [] = []
skip_spaces (c ∷ s) = let rest = skip_spaces s in if is_space c then rest else c ∷ s

unfoldable pub scan_digits : ℕ → ℕ → Bytes → ℕ × Bytes
unfolding digit_value
scan_digits base acc [] = (acc, [])
scan_digits base acc (c ∷ s) =
    let rest = scan_digits base (acc * base + digit_value c) s in
    if ltb (digit_value c) base then rest else (acc, c ∷ s)

-- What follows a leading zero: a hexadecimal number, if `x` and a digit come, or an octal one.
unfoldable pub after_zero : Bytes → ℕ × Bytes
unfolding scan_digits
after_zero (x ∷ d ∷ s) =
    if (x == 120 || x == 88) && ltb (digit_value d) 16
    then scan_digits 16 0 (d ∷ s)
    else scan_digits 8 0 (x ∷ d ∷ s)
after_zero s = scan_digits 8 0 s

-- The number without its sign, of any size, and the rest; or no number.
unfoldable pub magnitude : Bytes → Option (ℕ × Bytes)
unfolding after_zero
magnitude [] = none
magnitude (c ∷ s) =
    if c == 48
    then some (after_zero s)
    else if ltb (digit_value c) 10
    then some (scan_digits 10 0 (c ∷ s))
    else none

-- The value of `strtoull`: the largest one, if the number is too large; a negative number wraps round.
unfoldable pub clamp_u64 : Bool → ℕ → ℕ
clamp_u64 negative m =
    if ltb u64_max m then u64_max else if negative then (2 ^ 64 - m) % 2 ^ 64 else m

abbrev pub converted : Bool → Bytes → Option (ℕ × Bytes) → ℕ × Bytes
converted negative s none = (0, s)
converted negative s (some (m, rest)) = (clamp_u64 negative m, rest)

abbrev pub signed : Bytes → Bytes → ℕ × Bytes
signed s [] = (0, s)
signed s (c ∷ t) =
    if c == 45
    then converted true s (magnitude t)
    else if c == 43
    then converted false s (magnitude t)
    else converted false s (magnitude (c ∷ t))

-- `strtoull(s, &end, 0)` of a C string: the value, and what `end` points at.
unfoldable pub strtoull : Bytes → ℕ × Bytes
unfolding skip_spaces magnitude clamp_u64
strtoull s = signed s (skip_spaces s)

-- `fmt` of a number, on fuel: one unit a digit.
unfoldable pub decimal : ℕ → ℕ → Bytes
decimal zero n = []
decimal (suc fuel) n =
    let front = decimal fuel (n / 10) in
    if ltb n 10 then (48 + n) ∷ [] else front ++ ((48 + n % 10) ∷ [])
