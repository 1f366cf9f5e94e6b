-- ===== src/Base/Digits.antt =====
-- Numbers as `std::ostream` prints them, in the bases up to 16, and fields between tabs.
use mathlib.Core.List.{List, [], ◌∷◌, ◌++◌}
use Prim.Native.Nat.{ℕ, zero, suc, ◌+◌, ◌-◌, ◌/◌, ◌%◌}
use rd_spe_tool.Base.Tests.{if◌then◌else◌, ltb}
use rd_spe_tool.Base.Strings.{Text}
use rd_spe_tool.Base.Int.{ℤ, pos, negsuc}

unfoldable pub digit : ℕ → ℕ
digit d = if ltb d 10 then b'0' + d else b'a' + (d - 10)

-- A number below 2^n has at most n digits in any base.
unfoldable pub print_base : ℕ → ℕ → ℕ → Text
unfolding digit
print_base base zero n = []
print_base base (suc fuel) n =
    let rest = print_base base fuel (n / base) in
    if ltb n base then digit n ∷ [] else rest ++ digit (n % base) ∷ []

unfoldable pub print_decimal : ℕ → Text
print_decimal n = print_base 10 64 n

-- With `std::hex`.
unfoldable pub print_hex : ℕ → Text
print_hex n = print_base 16 64 n

unfoldable pub print_int : ℤ → Text
print_int (pos n) = print_decimal n
print_int (negsuc n) = b'-' ∷ print_decimal (suc n)

-- Fields with a tab after each, and the last field.
unfoldable pub join_tab : List Text → Text → Text
join_tab [] last = last
join_tab (field ∷ fields) last = field ++ 9 ∷ join_tab fields last
