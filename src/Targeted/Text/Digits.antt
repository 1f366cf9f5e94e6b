-- ===== src/Targeted/Text/Digits.antt =====
-- What `strtoull` reads of a number that `std::ostream` has printed.
use rd_spe_tool.Base.{
  ℕ, zero, suc, ◌+◌, ◌*◌, ◌/◌, ◌%◌, ◌^◌, ◌≤◌, ◌<◌, ◌≡◌, refl, ap, ◌∙◌, false, if-all, ltb, ◌==◌, [],
  ◌∷◌, ◌++◌, Text, All, arith, lt→ltb, ltb→lt,
}
use rd_spe_tool.Base.Int.{ℤ, pos, negsuc}
use rd_spe_tool.Base.Digits.{digit, print_base, print_decimal, print_hex, print_int}
use rd_spe_tool.Targeted.Text.{
  isspace, trim_left, digit_value, read_digits, read_sign, read_decimal, read_any_base, read_number,
  end_of, starts_number,
}

-- Digits of a base.
abbrev pub AreDigits : ℕ → Text → Type 0
AreDigits base s = All (λ c. digit_value c < base) s

digit_value-digit : (d : ℕ) → d < 16 → digit_value (digit d) ≡ d
unfolding digit_value digit
digit_value-digit d small = ground arith

AreDigits-append :
    (base : ℕ) (xs ys : Text) → AreDigits base xs → AreDigits base ys → AreDigits base (xs ++ ys)
AreDigits-append base [] ys hx hy = hy
AreDigits-append base (x ∷ xs) ys hx hy = (hx.0, AreDigits-append base xs ys hx.1 hy)

-- The number that a text of digits stands for, after `acc`.
value : ℕ → ℕ → Text → ℕ
value base acc [] = acc
value base acc (c ∷ s) = value base (acc * base + digit_value c) s

value-append :
    (base acc : ℕ) (xs ys : Text) → value base acc (xs ++ ys) ≡ value base (value base acc xs) ys
unfolding value
value-append base acc [] ys = refl
value-append base acc (x ∷ xs) ys = value-append base (acc * base + digit_value x) xs ys

read_digits-AreDigits :
    (base acc : ℕ) (s : Text) → AreDigits base s → read_digits base acc s ≡ (value base acc s, [])
unfolding read_digits value
read_digits-AreDigits base acc [] h = refl
read_digits-AreDigits base acc (c ∷ s) h =
    rw (lt→ltb (digit_value c) base h.0)
      (read_digits-AreDigits base (acc * base + digit_value c) s h.1)

snoc_nonempty : (s : Text) (c : ℕ) → ¬ (s ++ c ∷ [] ≡ [])
snoc_nonempty [] c e = cc e
snoc_nonempty (x ∷ s) c e = cc e

-- A base in which numbers are printed, and its division.
record IsBase (base : ℕ) : Type 0 where
  small : base ≤ 16
  rest : (n : ℕ) → n % base < base
  whole : (n : ℕ) → (n / base) * base + n % base ≡ n
  half : (n : ℕ) → (n / base) * 2 ≤ n

decimal-IsBase : IsBase 10
decimal-IsBase = record {
  small = omega arith;
  rest = λ n. omega arith;
  whole = λ n. omega arith;
  half = λ n. omega arith;
}

hex-IsBase : IsBase 16
hex-IsBase = record {
  small = omega arith;
  rest = λ n. omega arith;
  whole = λ n. omega arith;
  half = λ n. omega arith;
}

one_digit : (base d : ℕ) → IsBase base → d < base → AreDigits base (digit d ∷ [])
one_digit base d b less =
    (omega (arith, digit_value-digit d (omega (arith, less, b.small)), less), tt)

print_base-AreDigits : (base fuel n : ℕ) → IsBase base → AreDigits base (print_base base fuel n)
unfolding print_base
print_base-AreDigits base zero n b = tt
print_base-AreDigits base (suc fuel) n b =
    if-all (AreDigits base) (ltb n base) _ _ (λ h. one_digit base n b (ltb→lt n base h))
      (λ h.
        AreDigits-append base (print_base base fuel (n / base)) _
          (print_base-AreDigits base fuel (n / base) b) (one_digit base (n % base) b (b.rest n)))

value-print_base :
    (base fuel n : ℕ) → IsBase base → n < 2 ^ fuel → value base 0 (print_base base fuel n) ≡ n
unfolding print_base value
value-print_base base zero n b small = omega (arith, small)
value-print_base base (suc fuel) n b small =
    if-all (λ s. value base 0 s ≡ n) (ltb n base) _ _
      (λ h. omega (arith, digit_value-digit n (omega (arith, ltb→lt n base h, b.small))))
      (λ h.
        value-append base 0 (print_base base fuel (n / base)) (digit (n % base) ∷ [])
        ∙ ap (λ v. v * base + digit_value (digit (n % base)))
            (value-print_base base fuel (n / base) b (omega (arith, small, b.half n)))
        ∙ ap (λ v. (n / base) * base + v)
            (digit_value-digit (n % base) (omega (arith, b.rest n, b.small)))
        ∙ b.whole n)

-- No digit is a space, a sign or a tab.
digit_plain :
    (c : ℕ)
    → digit_value c < 16
    → (isspace c ≡ false) × ((c == b'-') ≡ false) × ((c == b'+') ≡ false) × ((c == 9) ≡ false)
unfolding digit_value isspace
digit_plain c h = ground arith

print_base-nonempty : (base fuel n : ℕ) → ¬ (print_base base (suc fuel) n ≡ [])
unfolding print_base
print_base-nonempty base fuel n =
    if-all (λ s. ¬ (s ≡ [])) (ltb n base) _ _ (λ h e. cc e)
      (λ h e. snoc_nonempty (print_base base fuel (n / base)) _ e)

-- Digits after an optional sign that is not there.
read_sign-AreDigits : (s : Text) → AreDigits 16 s → read_sign (trim_left s) ≡ (false, s)
unfolding read_sign trim_left
read_sign-AreDigits [] h = refl
read_sign-AreDigits (c ∷ s) h =
    let (space, minus, plus, tab) = digit_plain c h.0 in rw (space, minus, plus)

fewer_digits : (s : Text) → AreDigits 10 s → AreDigits 16 s
fewer_digits [] h = tt
fewer_digits (c ∷ s) h = (omega (arith, h.0), fewer_digits s h.1)

end_of-AreDigits :
    (s digits rest : Text) → AreDigits 10 digits → ¬ (digits ≡ []) → end_of s digits rest ≡ rest
unfolding end_of starts_number
end_of-AreDigits s [] rest h filled = absurd (filled refl)
end_of-AreDigits s (c ∷ digits) rest h filled = rw (lt→ltb (digit_value c) 10 h.0) refl

-- A decimal number below 2^64 is read as it was printed.
pub read_decimal-print_decimal :
    (n : ℕ)
    → n < 2 ^ 64
    → read_decimal (print_decimal n) ≡ record { negative = false; magnitude = n; rest = [] }
unfolding read_decimal print_decimal
read_decimal-print_decimal n small =
    let digits = print_base-AreDigits 10 64 n decimal-IsBase in
    rw (read_sign-AreDigits (print_base 10 64 n) (fewer_digits (print_base 10 64 n) digits)) (
      rw
        (
          read_digits-AreDigits 10 0 (print_base 10 64 n) digits,
          end_of-AreDigits (print_base 10 64 n) (print_base 10 64 n) [] digits
              (print_base-nonempty 10 63 n),
        )
        (ap (λ m. record { negative = false; magnitude = m; rest = [] })
          (value-print_base 10 64 n decimal-IsBase small)))

read_any_base-hex :
    (s : Text) → ¬ (s ≡ []) → AreDigits 16 s → read_any_base (b'0' ∷ b'x' ∷ s) ≡ read_digits 16 0 s
unfolding read_any_base
read_any_base-hex [] filled h = absurd (filled refl)
read_any_base-hex (c ∷ s) filled h = rw (lt→ltb (digit_value c) 16 h.0)

-- An offset below 2^64, printed with its prefix, is read as it was.
pub read_number-print_hex :
    (n : ℕ)
    → n < 2 ^ 64
    → read_number (b'0' ∷ b'x' ∷ print_hex n)
      ≡ record { negative = false; magnitude = n; rest = [] }
unfolding read_number print_hex read_sign trim_left isspace end_of starts_number digit_value
read_number-print_hex n small =
    let digits = print_base-AreDigits 16 64 n hex-IsBase in
    rw (read_any_base-hex (print_base 16 64 n) (print_base-nonempty 16 63 n) digits) (
      rw (read_digits-AreDigits 16 0 (print_base 16 64 n) digits) (
        ap (λ m. record { negative = false; magnitude = m; rest = [] })
          (value-print_base 16 64 n hex-IsBase small)))

-- What is between two tabs.
abbrev pub NoTab : Text → Type 0
NoTab s = All (λ c. (c == 9) ≡ false) s

NoTab-AreDigits : (s : Text) → AreDigits 16 s → NoTab s
NoTab-AreDigits [] h = tt
NoTab-AreDigits (c ∷ s) h = ((digit_plain c h.0).3, NoTab-AreDigits s h.1)

pub print_decimal-NoTab : (n : ℕ) → NoTab (print_decimal n)
unfolding print_decimal
print_decimal-NoTab n =
    NoTab-AreDigits (print_base 10 64 n)
      (fewer_digits (print_base 10 64 n) (print_base-AreDigits 10 64 n decimal-IsBase))

pub print_hex-NoTab : (n : ℕ) → NoTab (print_hex n)
unfolding print_hex
print_hex-NoTab n = NoTab-AreDigits (print_base 16 64 n) (print_base-AreDigits 16 64 n hex-IsBase)

pub print_decimal-nonempty : (n : ℕ) → ¬ (print_decimal n ≡ [])
unfolding print_decimal
print_decimal-nonempty n = print_base-nonempty 10 63 n

pub print_int-NoTab : (n : ℤ) → NoTab (print_int n)
unfolding print_int
print_int-NoTab (pos n) = print_decimal-NoTab n
print_int-NoTab (negsuc n) = (refl, print_decimal-NoTab (suc n))
