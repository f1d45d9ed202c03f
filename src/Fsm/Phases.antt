-- ===== src/Fsm/Phases.antt =====
-- RunFsm as its streams' phases: what the reports of the completion queue mean, apart from pointers
-- and pending operations.
pub mod Runs
pub mod Drains
pub mod Ends
use mathlib.Core.List.{map}
use mdt_dialout_collector.Common.{
  ℕ, zero, suc, ◌+◌, ◌<◌, Bool, true, false, Option, none, some, List, [], ◌∷◌, ◌++◌, ◌≡◌, refl,
  sym, ◌∙◌, ap, subst, arith, get_elem?, set, if◌then◌else◌, Partial, done, bind, Partial-cases,
  inl, inr,
}
use mdt_dialout_collector.Common.Number.{ℤ, int_max}
use mdt_dialout_collector.Fsm.{
  create, read, finishing, Stream, Completion, failed, completed, reached, proceed,
}
use mdt_dialout_collector.Fsm.Pool.{Slot, spawned, dispatch, run_events}
use mdt_dialout_collector.Fsm.Serve.{handle_all}

-- A stream waits for its call, is open with as many messages read, closes, or is over.
pub data Phase : Type 0 where
  waiting over : Phase
  open_with closing : ℕ → Phase

abbrev pub closes : ℤ → ℕ → Phase
closes limit n = if reached limit n then closing n else open_with n

-- The phase behind a report.
abbrev pub advance : {M : Type 0} → ℤ → Phase → Completion M → Phase
advance limit waiting failed = over
advance limit waiting (completed _) = open_with 0
advance limit (open_with n) failed = closing n
advance limit (open_with n) (completed _) = closes limit (n + 1)
advance limit (closing _) _ = over
advance limit over _ = over

-- The streams that a report adds: one more waits where one is called.
abbrev pub added : {M : Type 0} → Phase → Completion M → List Phase
added waiting (completed _) = waiting ∷ []
added _ _ = []

-- The message that a report brings: what an open stream has read.
abbrev pub message : {M : Type 0} → Phase → Completion M → List M
message (open_with n) (completed m) = m ∷ []
message _ _ = []

-- The queue reports no operation of a stream that is over, and an int counts the messages.
abbrev pub Reports : {M : Type 0} → Phase → Completion M → Type 0
Reports waiting _ = Unit
Reports over _ = ⊥
Reports (open_with n) failed = Unit
Reports (open_with n) (completed _) = n < int_max
Reports (closing _) _ = Unit

module _ {M : Type 0} (limit : ℤ) where
  abbrev pub after : List Phase → ℕ → Phase → Completion M → List Phase
  after ps i p c = set ps i (advance limit p c) ++ added p c

  -- A sequence of reports that the queue can give, with the messages that they bring, in order, and
  -- the phases behind them.
  pub data Hears : List Phase → List (ℕ × Completion M) → List M → List Phase → Type 0 where
    silence : {ps : List Phase} → Hears ps [] [] ps
    report :
        {ps qs : List Phase} {events : List (ℕ × Completion M)} {ms : List M} (i : ℕ) (p : Phase)
        (c : Completion M)
        → get_elem? ps i ≡ some p
        → Reports p c
        → Hears (after ps i p c) events ms qs
        → Hears ps ((i, c) ∷ events) (message p c ++ ms) qs
