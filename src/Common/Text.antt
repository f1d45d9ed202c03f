-- ===== src/Common/Text.antt =====
-- Byte strings, for the texts that the program walks and builds: a `std::string` as the list of its
-- bytes. Literals are written by `codes`, and are ASCII.
pub mod Split
use Prim.Native.Char.{code}
use Prim.Native.Nat.{ℕ, ◌+◌}
use Prim.Native.String.{String}
use mathlib.Core.Path.{◌≡◌, refl}
use mathlib.Core.Logic.{◌↔◌}
use mathlib.Core.Bool.{Bool, true, false, ◌&&◌, ◌||◌}
use mathlib.Core.Option
use mathlib.Core.Option.{Option, none, some}
use mathlib.Core.List.{List, [], ◌∷◌}
use native.Mathlib.Omega.{arith}
use mdt_dialout_collector.Common.Tests.{◌==◌, if◌then◌else◌}

abbrev pub Bytes : Type 0
Bytes = List ℕ

abbrev pub codes : String → Bytes
codes String.[] = []
codes (String.◌∷◌ c s) = code c ∷ codes s

-- `a == b` on strings
unfoldable pub equal : Bytes → Bytes → Bool
equal (c ∷ s) (d ∷ t) = c == d && equal s t
equal [] [] = true
equal _ _ = false

pub equal_iff : (s t : Bytes) → (equal s t ≡ true) ↔ (s ≡ t)
unfolding equal
equal_iff [] [] = ground arith
equal_iff (c ∷ s) (d ∷ t) = ground (arith, equal_iff s t)
equal_iff _ _ = ground arith

pub equal_refl : (a : Bytes) → equal a a ≡ true
equal_refl a = (equal_iff a a).1 refl

-- `s.empty()`
abbrev pub is_empty : Bytes → Bool
is_empty [] = true
is_empty (_ ∷ _) = false

-- The text before the first `c` and the text behind it; `none` is `npos` of `find`.
unfoldable pub split_first : ℕ → Bytes → Option (Bytes × Bytes)
split_first c [] = none
split_first c (x ∷ s) =
    if x == c then some ([], s) else Option.map (λ (a, b). (x ∷ a, b)) (split_first c s)

-- The text before the last `c` and the text behind it; `none` is `npos` of `rfind`.
unfoldable pub split_last : ℕ → Bytes → Option (Bytes × Bytes)
split_last c [] = none
split_last c (x ∷ s) = elim (split_last c s) [
  | some (a, b) ↦ some (x ∷ a, b)
  | none ↦ if x == c then some ([], s) else none
]

-- Whether the byte `c` stands in the text.
unfoldable pub has : ℕ → Bytes → Bool
has c [] = false
has c (x ∷ s) = x == c || has c s

-- The place of the first and of the last `c`; `none` is `npos`.
unfoldable pub index_first : ℕ → Bytes → Option ℕ
index_first c [] = none
index_first c (x ∷ s) = if x == c then some 0 else Option.map (λ i. i + 1) (index_first c s)

unfoldable pub index_last : ℕ → Bytes → Option ℕ
index_last c [] = none
index_last c (x ∷ s) = elim (index_last c s) [
  | some i ↦ some (i + 1)
  | none ↦ if x == c then some 0 else none
]

-- `s.c_str()` as a C string: the text before its first NUL.
unfoldable pub c_string : Bytes → Bytes
unfolding split_first
c_string s = elim (split_first 0 s) [ none ↦ s | some (before, _) ↦ before ]
