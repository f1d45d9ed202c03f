-- ===== src/Common/Number.antt =====
-- Machine integers, and the decimal numbers of `std::stoi`.
use Prim.Native.Nat.{ℕ, zero, suc, ◌+◌, ◌-◌, ◌*◌, ◌%◌}
use mathlib.Core.Bool.{Bool, true, false, ◌&&◌, ◌||◌}
use mathlib.Core.List.{[], ◌∷◌}
use mdt_dialout_collector.Common.Tests.{leb, ◌==◌, if◌then◌else◌}
use mdt_dialout_collector.Common.Throw.{Partial, done, thrown, invalid_argument, out_of_range}
use mdt_dialout_collector.Common.Text.{Bytes}

-- `negsuc n` is -(n + 1).
pub data ℤ : Type 0 where
  pos : ℕ → ℤ
  negsuc : ℕ → ℤ

-- The value of a conversion to a `w`-bit unsigned integer: for 16 and 64 bits.
abbrev pub u16 : ℤ → ℕ
u16 (pos n) = n % 65536
u16 (negsuc n) = 65535 - n % 65536

abbrev pub u64 : ℕ → ℕ
u64 n = n % 18446744073709551616

abbrev pub u64_of : ℤ → ℕ
u64_of (pos n) = n % 18446744073709551616
u64_of (negsuc n) = 18446744073709551615 - n % 18446744073709551616

-- INT_MAX
abbrev pub int_max : ℕ
int_max = 2147483647

unfoldable pub is_space : ℕ → Bool
is_space c = c == b' ' || (leb 9 c && leb c 13)

unfoldable pub is_digit : ℕ → Bool
is_digit c = leb b'0' c && leb c b'9'

-- The number that the leading digits make behind those that make `acc`.
unfoldable pub read_digits : ℕ → Bytes → ℕ
unfolding is_digit
read_digits acc [] = acc
read_digits acc (c ∷ s) =
    let rest = read_digits (acc * 10 + (c - b'0')) s in if is_digit c then rest else acc

-- `-n` or `n` as an `int`
unfoldable pub to_int : Bool → ℕ → Partial ℤ
to_int true zero = done (pos 0)
to_int true (suc n) = if leb n int_max then done (negsuc n) else thrown out_of_range
to_int false n = if leb n int_max then done (pos n) else thrown out_of_range

-- behind the sign there has to be a digit
unfoldable pub signed : Bool → Bytes → Partial ℤ
unfolding read_digits to_int is_digit
signed negative [] = thrown invalid_argument
signed negative (c ∷ s) =
    if is_digit c then to_int negative (read_digits 0 (c ∷ s)) else thrown invalid_argument

-- `std::stoi`: blanks, a sign and digits; what follows them is passed over
unfoldable pub stoi : Bytes → Partial ℤ
unfolding signed is_space
stoi [] = thrown invalid_argument
stoi (c ∷ s) =
    let rest = stoi s in
    if is_space c
    then rest
    else if c == b'-'
    then signed true s
    else if c == b'+'
    then signed false s
    else signed false (c ∷ s)
