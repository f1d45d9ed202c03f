-- ===== src/Fsm/Phases/Runs.antt =====
-- The loop of RunFsm goes through the phases: it hands on the messages that the reports bring.
use mathlib.Core.List.{map, map-append}
use mdt_dialout_collector.Common.{
  ℕ, zero, suc, ◌+◌, ◌<◌, none, some, List, [], ◌∷◌, ◌++◌, ◌≡◌, refl, sym, ◌∙◌, ap, arith,
  get_elem?, set, Partial, done, thrown, bind, Partial-cases, Bool-cases, inl, inr,
}
use mdt_dialout_collector.Common.Number.{ℤ, int_max}
use mdt_dialout_collector.Fsm.{
  read, finishing, new_stream, Stream, Completion, failed, completed, reached, proceed,
}
use mdt_dialout_collector.Fsm.Pool.{Slot, spawned, settle, dispatch, run_events}
use mdt_dialout_collector.Fsm.Serve.{handle_all}
use mdt_dialout_collector.Fsm.Phases.{
  Phase, waiting, over, open_with, closing, closes, message, Reports, after, Hears, silence, report,
}

-- The slot of a stream in a phase.
abbrev pub slot_of : Phase → Slot
slot_of waiting = spawned
slot_of over = record { stream = none; pending = 0 }
slot_of (open_with n) = record { stream = some (record { state = read; replies = n }); pending = 1 }
slot_of (closing n) = record {
  stream = some (record { state = finishing; replies = n });
  pending = 1;
}

get_elem?-map :
    (ps : List Phase) (i : ℕ) {p : Phase}
    → get_elem? ps i ≡ some p
    → get_elem? (map slot_of ps) i ≡ some (slot_of p)
get_elem?-map [] i h = absurd (cc)
get_elem?-map (q ∷ ps) zero h = ground arith
get_elem?-map (q ∷ ps) (suc i) h = get_elem?-map ps i h

set-map :
    (ps : List Phase) (i : ℕ) (p : Phase)
    → set (map slot_of ps) i (slot_of p) ≡ map slot_of (set ps i p)
set-map [] i p = refl
set-map (q ∷ ps) zero p = refl
set-map (q ∷ ps) (suc i) p = ap (◌∷◌ (slot_of q)) (set-map ps i p)

module _ {M W : Type 0} (handle_message : M → W → Partial W) (limit : ℤ) where
  handle_all-append :
      (ms ns : List M) (w : W)
      → handle_all handle_message (ms ++ ns) w
        ≡ bind (handle_all handle_message ms w) (handle_all handle_message ns)
  unfolding handle_all
  handle_all-append [] ns w = refl
  handle_all-append (m ∷ ms) ns w = elim (Partial-cases (handle_message m w)) [
    | inl (w', e) ↦ rw e (handle_all-append ms ns w')
    | inr (x, e) ↦ rw e refl
  ]

  -- The pool behind a turn, in terms of the phases.
  settled :
      (ps : List Phase) (i : ℕ) (q : Phase) (new : List Phase) (w : W)
      → ◌≡◌ {A = Partial (List Slot × W)}
          (done (set (map slot_of ps) i (slot_of q) ++ map slot_of new, w))
          (done (map slot_of (set ps i q ++ new), w))
  settled ps i q new w =
      ap (λ pool. done (pool, w))
        (ap (λ pool. pool ++ map slot_of new) (set-map ps i q)
          ∙ sym (map-append slot_of (set ps i q) new))

  dispatch_found :
      (i : ℕ) (c : Completion M) (pool : List Slot) (s : Stream) (w : W)
      → get_elem? pool i ≡ some (record { stream = some s; pending = 1 })
      → dispatch handle_message limit i c pool w
        ≡ bind (proceed handle_message limit c s w) λ turn. done (settle pool i 1 turn)
  unfolding dispatch
  dispatch_found i c pool s w found = rw (found, dispatch) refl

  -- A message that an open stream has read.
  read_turn :
      (i n : ℕ) (m : M) (ps : List Phase) (w : W)
      → get_elem? ps i ≡ some (open_with n)
      → n < int_max
      → dispatch handle_message limit i (completed m) (map slot_of ps) w
        ≡ bind
            (handle_message m w)
            λ w'. done (map slot_of (set ps i (closes limit (n + 1)) ++ []), w')
  unfolding proceed
  read_turn i n m ps w at small =
      dispatch_found i (completed m) (map slot_of ps) (record { state = read; replies = n }) w
        (get_elem?-map ps i at)
      ∙ elim (Partial-cases (handle_message m w)) [
        | inr (x, e) ↦ rw e refl
        | inl (w', e) ↦ elim (Bool-cases (reached limit (n + 1))) [
          | inl enough ↦
              let closed = settled ps i (closing (n + 1)) [] w' in rw enough (ground arith)
          | inr more ↦ let opened = settled ps i (open_with (n + 1)) [] w' in rw more (ground arith)
        ]
      ]

  turn :
      (i : ℕ) (p : Phase) (c : Completion M) (ps : List Phase) (w : W)
      → get_elem? ps i ≡ some p
      → Reports p c
      → dispatch handle_message limit i c (map slot_of ps) w
        ≡ bind
            (handle_all handle_message (message p c) w)
            λ w'. done (map slot_of (after limit ps i p c), w')
  unfolding proceed handle_all
  turn i waiting failed ps w at ok =
      dispatch_found i failed (map slot_of ps) new_stream w (get_elem?-map ps i at)
      ∙ settled ps i over [] w
  turn i waiting (completed m) ps w at ok =
      dispatch_found i (completed m) (map slot_of ps) new_stream w (get_elem?-map ps i at)
      ∙ settled ps i (open_with 0) (waiting ∷ []) w
  turn i (open_with n) failed ps w at ok =
      dispatch_found i failed (map slot_of ps) (record { state = read; replies = n }) w
        (get_elem?-map ps i at)
      ∙ settled ps i (closing n) [] w
  turn i (open_with n) (completed m) ps w at ok =
      read_turn i n m ps w at ok ∙ elim (Partial-cases (handle_message m w)) [
        | inl (w', e) ↦ rw e refl
        | inr (x, e) ↦ rw e refl
      ]
  turn i (closing n) failed ps w at ok =
      dispatch_found i failed (map slot_of ps) (record { state = finishing; replies = n }) w
        (get_elem?-map ps i at)
      ∙ settled ps i over [] w
  turn i (closing n) (completed m) ps w at ok =
      dispatch_found i (completed m) (map slot_of ps) (record { state = finishing; replies = n }) w
        (get_elem?-map ps i at)
      ∙ settled ps i over [] w
  turn i over c ps w at ok = absurd ok

  -- The rest of a loop, behind one report.
  on_done :
      (r : Partial W) (pool : List Slot) (events : List (ℕ × Completion M)) (ms : List M)
      (pool' : List Slot)
      → ((w : W)
          → run_events handle_message limit events pool w
            ≡ bind (handle_all handle_message ms w) λ w'. done (pool', w'))
      → bind
          (bind r λ w'. done (pool, w'))
          (λ (pool1, w'). run_events handle_message limit events pool1 w')
        ≡ bind (bind r (handle_all handle_message ms)) λ w'. done (pool', w')
  on_done (done w) pool events ms pool' rest = rest w
  on_done (thrown x) pool events ms pool' rest = refl

  -- Whatever legal reports the queue gives, the loop of RunFsm handles the messages that they bring,
  -- in their order, whichever streams they belong to; it throws only what the handler throws, and
  -- leaves the streams in their phases behind the reports.
  pub run_events-Hears :
      {ps qs : List Phase} {events : List (ℕ × Completion M)} {ms : List M}
      → Hears limit ps events ms qs
      → (w : W)
      → run_events handle_message limit events (map slot_of ps) w
        ≡ bind (handle_all handle_message ms w) λ w'. done (map slot_of qs, w')
  unfolding run_events handle_all
  run_events-Hears silence w = refl
  run_events-Hears {ps} {qs} (report {events = events} {ms = ms} i p c at ok rest) w =
      rw (turn i p c ps w at ok, handle_all-append (message p c) ms w)
        (on_done (handle_all handle_message (message p c) w) (map slot_of (after limit ps i p c))
          events ms (map slot_of qs) (run_events-Hears rest))
