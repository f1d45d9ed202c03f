-- ===== src/Fsm/Serve.antt =====
-- What one stream serves: the messages that it hands on, in their order, and how it ends.
use mathlib.Core.List.{map}
use mathlib.Core.Path.{fun_ext}
use mdt_dialout_collector.Common.{
  ap, ◌++◌, ℕ, ◌+◌, ◌≤◌, ◌<◌, true, false, Option, none, some, List, [], ◌∷◌, ◌≡◌, refl, arith,
  length, Partial, done, bind, Partial-cases, inl, inr, ◌∙◌,
}
use mdt_dialout_collector.Common.Number.{ℤ, pos, int_max}
use mdt_dialout_collector.Fsm.{
  read, finishing, Stream, new_stream, Completion, failed, completed, reached, proceed,
}

module _ {M W : Type 0} (handle_message : M → W → Partial W) where
  -- The messages one after the other, until the handler throws.
  unfoldable pub handle_all : List M → W → Partial W
  handle_all [] w = done w
  handle_all (m ∷ ms) w = bind (handle_message m w) λ w'. handle_all ms w'

module _ {M W : Type 0} (handle_message : M → W → Partial W) (max_replies : ℤ) where
  -- The turns of one stream over the reports of its operations, until it deletes itself.
  unfoldable pub run_stream : List (Completion M) → Stream → W → Partial (Option Stream × W)
  run_stream [] s w = done (some s, w)
  run_stream (c ∷ cs) s w =
      bind (proceed handle_message max_replies c s w)
        λ turn. elim turn.0 [ none ↦ done (none, turn.2) | some s' ↦ run_stream cs s' turn.2 ]

  abbrev reading : ℕ → Stream
  reading n = record { state = read; replies = n }

  run_stream-message :
      (m : M) (cs : List (Completion M)) (r : ℕ) (w : W)
      → r < int_max
      → reached max_replies (r + 1) ≡ false
      → run_stream (completed m ∷ cs) (reading r) w
        ≡ bind (handle_message m w) λ w'. run_stream cs (reading (r + 1)) w'
  unfolding run_stream proceed
  run_stream-message m cs r w small more = elim (Partial-cases (handle_message m w)) [
    | inl (w', e) ↦ ground arith
    | inr (e, h) ↦ ground arith
  ]

  -- Below the limit every message is handed on, and the stream goes on reading.
  run_stream-below :
      (ms : List M) (cs : List (Completion M)) (r : ℕ) (w : W)
      → r + length ms ≤ int_max
      → ((k : ℕ) → k ≤ r + length ms → reached max_replies k ≡ false)
      → run_stream (map completed ms ++ cs) (reading r) w
        ≡ bind (handle_all handle_message ms w) λ w'. run_stream cs (reading (r + length ms)) w'
  unfolding handle_all
  run_stream-below [] cs r w small more = ground arith
  run_stream-below (m ∷ ms) cs r w small more =
      run_stream-message m (map completed ms ++ cs) r w (omega arith) (more (r + 1) (omega arith))
      ∙ elim (Partial-cases (handle_message m w)) [
        | inl (w', e) ↦
            ground
              (arith, run_stream-below ms cs (r + 1) w' (omega arith) (λ k h. more k (omega arith)))
        | inr (e, h) ↦ ground arith
      ]

  finished : ℕ → Stream
  finished n = record { state = finishing; replies = n }

  run_stream-last :
      (m : M) (cs : List (Completion M)) (r : ℕ) (w : W)
      → r < int_max
      → reached max_replies (r + 1) ≡ true
      → run_stream (completed m ∷ cs) (reading r) w
        ≡ bind (handle_message m w) λ w'. run_stream cs (finished (r + 1)) w'
  unfolding run_stream proceed finished
  run_stream-last m cs r w small enough = elim (Partial-cases (handle_message m w)) [
    | inl (w', e) ↦ ground arith
    | inr (e, h) ↦ ground arith
  ]

  run_stream-finished :
      (c : Completion M) (cs : List (Completion M)) (n : ℕ) (w : W)
      → run_stream (c ∷ cs) (finished n) w ≡ done (none, w)
  unfolding run_stream proceed finished
  run_stream-finished failed cs n w = refl
  run_stream-finished (completed _) cs n w = refl

  run_stream-failed :
      (c : Completion M) (cs : List (Completion M)) (r : ℕ) (w : W)
      → run_stream (failed ∷ c ∷ cs) (reading r) w ≡ done (none, w)
  unfolding run_stream proceed
  run_stream-failed failed cs r w = refl
  run_stream-failed (completed _) cs r w = refl

  run_stream-new :
      (m : M) (cs : List (Completion M)) (w : W)
      → run_stream (completed m ∷ cs) new_stream w ≡ run_stream cs (reading 0) w
  unfolding run_stream proceed
  run_stream-new m cs w = refl

  -- Whatever a stream has read, two failed reports delete it, and no message is handed on.
  pub run_stream_drain :
      (s : Stream) (cs : List (Completion M)) (w : W)
      → run_stream (failed ∷ failed ∷ cs) s w ≡ done (none, w)
  unfolding run_stream proceed
  run_stream_drain s cs w = ground arith

module _ {M W : Type 0} (handle_message : M → W → Partial W) where
  at_limit :
      (n : ℕ) (ms : List M) (cs : List (Completion M)) (r : ℕ) (w : W)
      → r + length ms ≡ n
      → r < n
      → n ≤ int_max
      → run_stream handle_message
          (pos n)
          (map completed ms ++ cs)
          (reading handle_message (pos n) r)
          w
        ≡ bind
            (handle_all handle_message ms w)
            λ w'. run_stream handle_message (pos n) cs (finished handle_message (pos n) n) w'
  unfolding handle_all
  at_limit n [] cs r w e h small = absurd (omega arith)
  at_limit n (m ∷ []) cs r w e h small =
      run_stream-last handle_message (pos n) m cs r w (omega arith) (ground arith)
      ∙ elim (Partial-cases (handle_message m w)) [
        | inl (w', d) ↦ ground arith
        | inr (x, d) ↦ ground arith
      ]
  at_limit n (m ∷ m' ∷ ms) cs r w e h small =
      run_stream-message handle_message (pos n) m (map completed (m' ∷ ms) ++ cs) r w (omega arith)
        (ground arith)
      ∙ elim (Partial-cases (handle_message m w)) [
        | inl (w', d) ↦
            ground (arith, at_limit n (m' ∷ ms) cs (r + 1) w' (omega arith) (omega arith) small)
        | inr (x, d) ↦ ground arith
      ]

  -- A stream with a limit of n messages, where n is at least 1 and an int, that is called and gets
  -- n messages hands on these n in their order, and deletes itself at the next report, whatever
  -- that report and those behind it hold; a handler that throws ends it with its exception.
  pub run_stream_limited :
      (n : ℕ) (call : M) (ms : List M) (c : Completion M) (cs : List (Completion M)) (w : W)
      → length ms ≡ n
      → 0 < n
      → n ≤ int_max
      → run_stream handle_message
          (pos n)
          (completed call ∷ (map completed ms ++ (c ∷ cs)))
          new_stream
          w
        ≡ bind (handle_all handle_message ms w) λ w'. done (none, w')
  run_stream_limited n call ms c cs w e h small =
      run_stream-new handle_message (pos n) call (map completed ms ++ (c ∷ cs)) w
      ∙ at_limit n ms (c ∷ cs) 0 w (omega arith) h small
      ∙ ap (bind (handle_all handle_message ms w))
          (fun_ext λ w'. run_stream-finished handle_message (pos n) c cs n w')

  -- A stream with no limit (max_replies is 0) hands on every message in its order, as long as
  -- they are no more than an int counts, and deletes itself after its read has failed.
  pub run_stream_unlimited :
      (call : M) (ms : List M) (c : Completion M) (cs : List (Completion M)) (w : W)
      → length ms ≤ int_max
      → run_stream handle_message
          (pos 0)
          (completed call ∷ (map completed ms ++ (failed ∷ c ∷ cs)))
          new_stream
          w
        ≡ bind (handle_all handle_message ms w) λ w'. done (none, w')
  run_stream_unlimited call ms c cs w small =
      run_stream-new handle_message (pos 0) call (map completed ms ++ (failed ∷ c ∷ cs)) w
      ∙ run_stream-below handle_message (pos 0) ms (failed ∷ c ∷ cs) 0 w (omega arith) (λ k h. refl)
      ∙ ap (bind (handle_all handle_message ms w))
          (fun_ext λ w'. run_stream-failed handle_message (pos 0) c cs (0 + length ms) w')
