-- ===== src/Fsm/Phases/Drains.antt =====
-- What is left of the streams when the operations of a server are cancelled, as they are behind the
-- shutdown of the server and of its queue.
use mdt_dialout_collector.Common.{
  ℕ, zero, suc, ◌+◌, ◌≤◌, some, List, [], ◌∷◌, ◌++◌, ◌≡◌, refl, ap, arith, get_elem?, set, length,
  All, ◌⊎◌, inl, inr,
}
use mdt_dialout_collector.Common.Number.{ℤ}
use mdt_dialout_collector.Fsm.{Completion, failed, completed}
use mdt_dialout_collector.Fsm.Phases.{
  Phase, waiting, over, open_with, closing, advance, added, message, Reports, Hears, silence,
  report,
}

-- How many reports of cancelled operations a stream takes until it is over.
abbrev pub remaining : Phase → ℕ
remaining waiting = 1
remaining over = 0
remaining (open_with _) = 2
remaining (closing _) = 1

abbrev pub all_remaining : List Phase → ℕ
all_remaining [] = 0
all_remaining (p ∷ ps) = remaining p + all_remaining ps

abbrev pub IsOver : Phase → Type 0
IsOver p = p ≡ over

-- The report of a cancelled operation has failed; that of a Finish may be either.
abbrev pub Cancelled : {M : Type 0} → Phase → Completion M → Type 0
Cancelled _ failed = Unit
Cancelled (closing _) (completed _) = Unit
Cancelled waiting (completed _) = ⊥
Cancelled over (completed _) = ⊥
Cancelled (open_with _) (completed _) = ⊥

all_remaining-set :
    (ps : List Phase) (i : ℕ) (q : Phase) {p : Phase}
    → get_elem? ps i ≡ some p
    → all_remaining (set ps i q) + remaining p ≡ all_remaining ps + remaining q
all_remaining-set [] i q h = absurd (cc)
all_remaining-set (x ∷ ps) zero q h = ground arith
all_remaining-set (x ∷ ps) (suc i) q h = omega (arith, all_remaining-set ps i q h)

all_remaining-append :
    (ps qs : List Phase) → all_remaining (ps ++ qs) ≡ all_remaining ps + all_remaining qs
all_remaining-append [] qs = omega arith
all_remaining-append (p ∷ ps) qs = omega (arith, all_remaining-append ps qs)

-- Each report takes one away.
Cancelled-one :
    {M : Type 0} (limit : ℤ) (p : Phase) (c : Completion M)
    → Reports p c
    → Cancelled p c
    → (suc (remaining (advance limit p c)) ≡ remaining p) × (added p c ≡ []) × (message p c ≡ [])
Cancelled-one limit waiting failed ok off = (refl, refl, refl)
Cancelled-one limit waiting (completed m) ok off = absurd off
Cancelled-one limit over c ok off = absurd ok
Cancelled-one limit (open_with n) failed ok off = (refl, refl, refl)
Cancelled-one limit (open_with n) (completed m) ok off = absurd off
Cancelled-one limit (closing n) failed ok off = (refl, refl, refl)
Cancelled-one limit (closing n) (completed m) ok off = (refl, refl, refl)

pub All-IsOver_or :
    (ps : List Phase)
    → All IsOver ps ⊎ ((i : ℕ) × (p : Phase) × (get_elem? ps i ≡ some p) × (1 ≤ remaining p))
All-IsOver_or [] = inl tt
All-IsOver_or (waiting ∷ ps) = inr (0, waiting, refl, omega arith)
All-IsOver_or (open_with n ∷ ps) = inr (0, open_with n, refl, omega arith)
All-IsOver_or (closing n ∷ ps) = inr (0, closing n, refl, omega arith)
All-IsOver_or (over ∷ ps) = elim (All-IsOver_or ps) [
  | inl rest ↦ inl (refl, rest)
  | inr (i, p, at, left) ↦ inr (suc i, p, at, left)
]

module _ {M : Type 0} (limit : ℤ) where
  -- All reports of a sequence are of cancelled operations.
  abbrev pub AllCancelled :
      {ps qs : List Phase} {events : List (ℕ × Completion M)} {ms : List M}
      → Hears limit ps events ms qs
      → Type 0
  AllCancelled silence = Unit
  AllCancelled (report i p c at ok rest) = Cancelled p c × AllCancelled rest

  pub AllCancelled-counts :
      {ps qs : List Phase} {events : List (ℕ × Completion M)} {ms : List M}
      (h : Hears limit ps events ms qs)
      → AllCancelled h
      → (length events + all_remaining qs ≡ all_remaining ps) × (ms ≡ [])
  AllCancelled-counts silence off = (omega arith, refl)
  AllCancelled-counts {ps} (report i p c at ok rest) (one, off) =
      let (fewer, none_added, no_message) = Cancelled-one limit p c ok one in
      let (counted, no_more) = AllCancelled-counts rest off in
      let here = all_remaining-set ps i (advance limit p c) at in
      let both = all_remaining-append (set ps i (advance limit p c)) (added p c) in
      (
        omega (arith, fewer, counted, here, both, ap all_remaining none_added),
        rw (no_message, no_more) refl,
      )
