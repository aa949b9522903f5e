-- ===== src/Io/Text/Decimal.antt =====
-- Numbers that `fmt` writes, read by `strtoull` (both as src/common/io/socket_address.cpp calls them).
use ocvsmd.Common.{
  ℕ, zero, suc, ◌+◌, ◌*◌, ◌/◌, ◌%◌, ◌^◌, ◌≤◌, ◌<◌, ◌≡◌, ◌≢◌, refl, ◌∙◌, sym, ap, subst, some, none,
  [], ◌∷◌, ◌++◌, arith, ltb, lt→ltb, ◌==◌, inl, inr, Bool-cases, All, All-append, append_assoc,
  append-nil, false,
}
use ocvsmd.Io.Text.{
  Bytes, c_str, find_first_of, find_last_of, digit_value, skip_spaces, scan_digits, magnitude,
  clamp_u64, strtoull, decimal, signed, converted, u64_max,
}

abbrev pub IsDigit : ℕ → Type 0
IsDigit c = (48 ≤ c) × (c ≤ 57)

pub decimal-IsDigit : (fuel n : ℕ) → All IsDigit (decimal fuel n)
unfolding decimal
decimal-IsDigit zero n = tt
decimal-IsDigit (suc fuel) n = elim (Bool-cases (ltb n 10)) [
  | inl one ↦ rw one ((omega arith, ground arith), tt)
  | inr more ↦ rw more (
      All-append IsDigit (decimal fuel (n / 10)) ((48 + n % 10) ∷ [])
        (decimal-IsDigit fuel (n / 10)) ((omega arith, omega arith), tt))
]

-- `fuel` digits are enough.
abbrev pub Fits : ℕ → ℕ → Type 0
Fits zero n = n ≡ 0
Fits (suc fuel) n = Fits fuel (n / 10)

digit_value-digit : (d : ℕ) → d < 10 → digit_value (48 + d) ≡ d
unfolding digit_value
digit_value-digit d h = ground arith

scan_digits-digit :
    (acc d : ℕ) (s : Bytes)
    → d < 10
    → scan_digits 10 acc ((48 + d) ∷ s) ≡ scan_digits 10 (acc * 10 + d) s
unfolding scan_digits
scan_digits-digit acc d s h = rw (digit_value-digit d h) (rw (lt→ltb d 10 h) refl)

pub scan_digits-decimal :
    (fuel n : ℕ) (r : Bytes)
    → Fits fuel n
    → scan_digits 10 0 (decimal fuel n ++ r) ≡ scan_digits 10 n r
unfolding decimal
scan_digits-decimal zero n r h = rw h
scan_digits-decimal (suc fuel) n r h = elim (Bool-cases (ltb n 10)) [
  | inl one ↦
      rw one (scan_digits-digit 0 n r (ground arith) ∙ ap (λ m. scan_digits 10 m r) (omega arith))
  | inr more ↦ rw more (
      rw (append_assoc (decimal fuel (n / 10)) ((48 + n % 10) ∷ []) r) (
        scan_digits-decimal fuel (n / 10) ((48 + n % 10) ∷ r) h
        ∙ scan_digits-digit (n / 10) (n % 10) r (omega arith)
        ∙ ap (λ m. scan_digits 10 m r) (omega arith)))
]

-- The first digit of a number that is not zero is none.
pub leading :
    (fuel n : ℕ)
    → n ≢ 0
    → Fits fuel n
    → (c : ℕ) × (s : Bytes) × (decimal fuel n ≡ c ∷ s) × (49 ≤ c) × (c ≤ 57)
unfolding decimal
leading zero n h k = absurd (h k)
leading (suc fuel) n h k = elim (Bool-cases (ltb n 10)) [
  | inl one ↦ (48 + n, [], rw one refl, omega arith, ground arith)
  | inr more ↦
      let (c, s, e, low, high) = leading fuel (n / 10) (ground arith) k in
      (c, s ++ ((48 + n % 10) ∷ []), rw (more, e) refl, low, high)
]

digits-c_str : (s : Bytes) → All IsDigit s → c_str s ≡ s
unfolding c_str
digits-c_str [] h = refl
digits-c_str (c ∷ s) h = ground (arith, digits-c_str s h.1)

pub digits-find_first_of : (c : ℕ) (s : Bytes) → 57 < c → All IsDigit s → find_first_of c s ≡ none
unfolding find_first_of
digits-find_first_of c [] k h = refl
digits-find_first_of c (d ∷ s) k h = ground (arith, digits-find_first_of c s k h.1)

pub digits-find_last_of : (c : ℕ) (s : Bytes) → 57 < c → All IsDigit s → find_last_of c s ≡ none
unfolding find_last_of
digits-find_last_of c [] k h = refl
digits-find_last_of c (d ∷ s) k h = ground (arith, digits-find_last_of c s k h.1)

pub decimal-c_str : (fuel n : ℕ) → c_str (decimal fuel n) ≡ decimal fuel n
decimal-c_str fuel n = digits-c_str (decimal fuel n) (decimal-IsDigit fuel n)

skip_spaces-digit : (c : ℕ) (s : Bytes) → 48 ≤ c → c ≤ 57 → skip_spaces (c ∷ s) ≡ c ∷ s
unfolding skip_spaces
skip_spaces-digit c s low high = ground arith

digit_value-lt : (c : ℕ) → 48 ≤ c → c ≤ 57 → digit_value c < 10
unfolding digit_value
digit_value-lt c low high = ground arith

magnitude-digit :
    (c : ℕ) (s : Bytes) → 49 ≤ c → c ≤ 57 → magnitude (c ∷ s) ≡ some (scan_digits 10 0 (c ∷ s))
unfolding magnitude
magnitude-digit c s low high =
    let odd : (c == 48) ≡ false = ground arith in
    rw odd (rw (lt→ltb (digit_value c) 10 (digit_value-lt c (omega arith) high)) refl)

signed-digit :
    (all : Bytes) (c : ℕ) (s : Bytes)
    → 48 ≤ c
    → signed all (c ∷ s) ≡ converted false all (magnitude (c ∷ s))
signed-digit all c s low =
    let minus : (c == 45) ≡ false = ground arith in
    let plus : (c == 43) ≡ false = ground arith in rw minus (rw plus refl)

clamp_u64-small : (m : ℕ) → m < 2 ^ 64 → clamp_u64 false m ≡ m
unfolding clamp_u64
clamp_u64-small m h = let small : ltb u64_max m ≡ false = ground arith in rw small refl

-- A number that starts with a digit other than zero is decimal, and read at once.
strtoull-decimal_digits :
    (c : ℕ) (s : Bytes) (m : ℕ)
    → 49 ≤ c
    → c ≤ 57
    → scan_digits 10 0 (c ∷ s) ≡ (m, [])
    → m < 2 ^ 64
    → strtoull (c ∷ s) ≡ (m, [])
unfolding strtoull
strtoull-decimal_digits c s m low high e k = rw (skip_spaces-digit c s (omega arith) high) (
    signed-digit (c ∷ s) c s (omega arith)
    ∙ rw (magnitude-digit c s low high) (rw e (rw (clamp_u64-small m k) refl)))

zero_text : (fuel : ℕ) → decimal (suc fuel) 0 ≡ 48 ∷ []
unfolding decimal
zero_text fuel = refl

strtoull-zero : strtoull (48 ∷ []) ≡ (0, [])
unfolding strtoull
strtoull-zero = refl

scan_digits-nil : (n : ℕ) → scan_digits 10 n [] ≡ (n, [])
unfolding scan_digits
scan_digits-nil n = refl

pub strtoull-decimal :
    (fuel n : ℕ) → Fits (suc fuel) n → n < 2 ^ 64 → strtoull (decimal (suc fuel) n) ≡ (n, [])
strtoull-decimal fuel n h k = elim (Bool-cases (n == 0)) [
  | inl null ↦
      let e : n ≡ 0 = ground (arith, null) in
      subst (λ m. strtoull (decimal (suc fuel) m) ≡ (m, [])) (sym e)
        (ap strtoull (zero_text fuel) ∙ strtoull-zero)
  | inr pos ↦
      let (c, s, e, low, high) = leading (suc fuel) n (ground (arith, pos)) h in
      subst (λ t. strtoull t ≡ (n, [])) (sym e)
        (strtoull-decimal_digits c s n low high
          (subst (λ t. scan_digits 10 0 t ≡ (n, [])) (append-nil _ ∙ e)
            (scan_digits-decimal (suc fuel) n [] h ∙ scan_digits-nil n))
          k)
]

snoc-cons : (s : Bytes) (d : ℕ) → (c : ℕ) × (t : Bytes) × (s ++ d ∷ [] ≡ c ∷ t)
snoc-cons [] d = (d, [], refl)
snoc-cons (c ∷ s) d = (c, s ++ d ∷ [], refl)

-- No number prints as nothing.
pub decimal-cons : (fuel n : ℕ) → (c : ℕ) × (s : Bytes) × (decimal (suc fuel) n ≡ c ∷ s)
unfolding decimal
decimal-cons fuel n = elim (Bool-cases (ltb n 10)) [
  | inl one ↦ (48 + n, [], rw one refl)
  | inr more ↦ let (c, s, e) = snoc-cons (decimal fuel (n / 10)) (48 + n % 10) in (c, s, rw more e)
]
