-- ===== src/Common/Text/Split.antt =====
-- The laws of splitting a text at the first or the last place of a byte.
use mathlib.Core.Path.{◌≡◌, refl}
use mathlib.Core.Logic.{inl, inr}
use mathlib.Core.Bool.{false}
use mathlib.Core.Option.{none, some}
use mathlib.Core.List.{[], ◌∷◌, ◌++◌}
use Prim.Native.Nat.{ℕ}
use native.Mathlib.Omega.{arith}
use mdt_dialout_collector.Common.Tests.{Option-cases}
use mdt_dialout_collector.Common.Text.{Bytes, split_first, split_last, index_last, has}
use mdt_dialout_collector.Common.Lists.{length}

pub split_first-append :
    (c : ℕ) (a b : Bytes) → has c a ≡ false → split_first c (a ++ (c ∷ b)) ≡ some (a, b)
unfolding split_first has
split_first-append c [] b h = ground arith
split_first-append c (x ∷ a) b h = ground (arith, split_first-append c a b)

pub split_first-eq_none : (c : ℕ) (s : Bytes) → has c s ≡ false → split_first c s ≡ none
unfolding split_first has
split_first-eq_none c [] h = refl
split_first-eq_none c (x ∷ s) h = ground (arith, split_first-eq_none c s)

pub split_first_sound :
    (c : ℕ) (s : Bytes) {a b : Bytes}
    → split_first c s ≡ some (a, b)
    → (s ≡ a ++ (c ∷ b)) × (has c a ≡ false)
unfolding split_first has
split_first_sound c [] h = cc
split_first_sound c (x ∷ s) h = elim (Option-cases (split_first c s)) [
  | inl fails ↦ ground arith
  | inr ((a', b'), found) ↦ ground (arith, split_first_sound c s found)
]

pub split_last-eq_none : (c : ℕ) (s : Bytes) → has c s ≡ false → split_last c s ≡ none
unfolding split_last has
split_last-eq_none c [] h = refl
split_last-eq_none c (x ∷ s) h = ground (arith, split_last-eq_none c s)

pub split_last-append :
    (c : ℕ) (a b : Bytes) → has c b ≡ false → split_last c (a ++ (c ∷ b)) ≡ some (a, b)
unfolding split_last has
split_last-append c [] b h = ground (arith, split_last-eq_none c b h)
split_last-append c (x ∷ a) b h = ground (arith, split_last-append c a b h)

pub has_of_split_last-eq_none : (c : ℕ) (s : Bytes) → split_last c s ≡ none → has c s ≡ false
unfolding split_last has
has_of_split_last-eq_none c [] h = refl
has_of_split_last-eq_none c (x ∷ s) h = ground (arith, has_of_split_last-eq_none c s)

pub split_last_sound :
    (c : ℕ) (s : Bytes) {a b : Bytes}
    → split_last c s ≡ some (a, b)
    → (s ≡ a ++ (c ∷ b)) × (has c b ≡ false)
unfolding split_last has
split_last_sound c [] h = cc
split_last_sound c (x ∷ s) h = elim (Option-cases (split_last c s)) [
  | inl fails ↦ ground (arith, has_of_split_last-eq_none c s fails)
  | inr ((a', b'), found) ↦ ground (arith, split_last_sound c s found)
]

pub index_last-eq_none : (c : ℕ) (s : Bytes) → has c s ≡ false → index_last c s ≡ none
unfolding index_last has
index_last-eq_none c [] h = refl
index_last-eq_none c (x ∷ s) h = ground (arith, index_last-eq_none c s)

pub index_last-append :
    (c : ℕ) (a b : Bytes) → has c b ≡ false → index_last c (a ++ (c ∷ b)) ≡ some (length a)
unfolding index_last has
index_last-append c [] b h = ground (arith, index_last-eq_none c b h)
index_last-append c (x ∷ a) b h = ground (arith, index_last-append c a b h)
