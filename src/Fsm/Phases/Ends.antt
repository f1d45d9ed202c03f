-- ===== src/Fsm/Phases/Ends.antt =====
-- RunFsm from its first stream to the end of its queue.
use mathlib.Core.List.{map, append_assoc}
use mdt_dialout_collector.Common.{
  ℕ, zero, suc, ◌*◌, ◌≤◌, none, some, List, [], ◌∷◌, ◌++◌, ◌≡◌, refl, sym, ◌∙◌, ap, subst, arith,
  get_elem?, length, All, ◌⊎◌, inl, inr, Partial, done,
}
use mathlib.Core.List.{append-nil}
use mdt_dialout_collector.Common.Number.{ℤ}
use mdt_dialout_collector.Fsm.{Completion}
use mdt_dialout_collector.Fsm.Pool.{Slot, IsPending, run_fsm}
use mdt_dialout_collector.Fsm.Serve.{handle_all}
use mdt_dialout_collector.Fsm.Phases.{
  Phase, waiting, over, open_with, closing, message, Hears, silence, report,
}
use mdt_dialout_collector.Fsm.Phases.Runs.{slot_of, run_events-Hears}
use mdt_dialout_collector.Fsm.Phases.Drains.{
  remaining, all_remaining, IsOver, AllCancelled, AllCancelled-counts, All-IsOver_or,
}

pub Hears-append :
    {M : Type 0} (limit : ℤ) {ps qs rs : List Phase} {events events' : List (ℕ × Completion M)}
    {ms ns : List M}
    → Hears limit ps events ms qs
    → Hears limit qs events' ns rs
    → Hears limit ps (events ++ events') (ms ++ ns) rs
Hears-append limit silence behind = behind
Hears-append limit {rs = rs} {events' = events'} {ns = ns}
      (report {ps = ps} {events = events} {ms = ms} i p c at ok rest) behind =
    subst (λ all. Hears limit ps ((i, c) ∷ (events ++ events')) all rs)
      (sym (append_assoc (message p c) ms ns)) (report i p c at ok (Hears-append limit rest behind))

all_remaining-le : (ps : List Phase) → all_remaining ps ≤ 2 * length ps
all_remaining-le [] = omega arith
all_remaining-le (waiting ∷ ps) = omega (arith, all_remaining-le ps)
all_remaining-le (over ∷ ps) = omega (arith, all_remaining-le ps)
all_remaining-le (open_with n ∷ ps) = omega (arith, all_remaining-le ps)
all_remaining-le (closing n ∷ ps) = omega (arith, all_remaining-le ps)

abbrev pub IsDeleted : Slot → Type 0
IsDeleted slot = slot.stream ≡ none

All-IsDeleted : (ps : List Phase) → All IsOver ps → All IsDeleted (map slot_of ps)
All-IsDeleted [] _ = tt
All-IsDeleted (p ∷ ps) (e, rest) = (ap (λ q. (slot_of q).stream) e, All-IsDeleted ps rest)

slot_pending : (p : Phase) → 1 ≤ remaining p → (slot_of p).pending ≡ 1
slot_pending waiting h = refl
slot_pending over h = absurd (omega arith)
slot_pending (open_with n) h = refl
slot_pending (closing n) h = refl

IsPending-at :
    (ps : List Phase) (i : ℕ) {p : Phase}
    → get_elem? ps i ≡ some p
    → 1 ≤ remaining p
    → IsPending (map slot_of ps) i
IsPending-at [] i at left = absurd (cc)
IsPending-at (q ∷ ps) zero {p} at left = (
  slot_of q,
  refl,
  let same : q ≡ p = ground arith in let one = slot_pending q (rw same left) in omega (arith, one),
)
IsPending-at (q ∷ ps) (suc i) at left = IsPending-at ps i at left

-- Either all streams are deleted, or some stream has an operation that the queue is to report.
abbrev pub IsDrained : List Slot → Type 0
IsDrained pool = All IsDeleted pool ⊎ ((i : ℕ) × IsPending pool i)

drained : (ps : List Phase) → IsDrained (map slot_of ps)
drained ps = elim (All-IsOver_or ps) [
  | inl gone ↦ inl (All-IsDeleted ps gone)
  | inr (i, p, at, left) ↦ inr (i, IsPending-at ps i at left)
]

module _ {M W : Type 0} (handle_message : M → W → Partial W) (limit : ℤ) where
  -- RunFsm over legal reports, the last of which are those of cancelled operations. Where the
  -- handler takes the messages that the reports bring, RunFsm throws nothing, and no message comes
  -- of the cancelled operations. There are no more of these than two for each stream that was
  -- created; and where the queue has none left to report, all streams have been deleted.
  pub run_fsm-IsDrained :
      {ps qs : List Phase} {events cancels : List (ℕ × Completion M)} {ms ns : List M}
      → Hears limit (waiting ∷ []) events ms ps
      → (off : Hears limit ps cancels ns qs) → AllCancelled limit off
      → (w w' : W) → handle_all handle_message ms w ≡ done w'
      → (pool : List Slot) × (run_fsm handle_message limit (events ++ cancels) w ≡ done (pool, w'))
        × (length cancels ≤ 2 * length ps)
        × IsDrained pool
  unfolding run_fsm
  run_fsm-IsDrained {ps} {qs} {ms = ms} heard off cancelled w w' handled =
      let (counted, no_message) = AllCancelled-counts limit off cancelled in
      let all = run_events-Hears handle_message limit (Hears-append limit heard off) w in
      (
        map slot_of qs,
        all ∙ rw (no_message, append-nil ms, handled) refl,
        omega (arith, counted, all_remaining-le ps),
        drained qs,
      )
