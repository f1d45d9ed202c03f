-- ===== src/Fsm/Lifetime.antt =====
-- Lifetimes of the streams: a live stream has one operation pending and a deleted one has none.
use mdt_dialout_collector.Common.{
  subst, done-injective, ℕ, ◌+◌, ◌-◌, ◌≤◌, Bool, true, false, Option, none, some, List, [], ◌∷◌,
  ◌≡◌, refl, inl, inr, arith, get_elem?, set, count, count-append, count-set, All, All-append,
  All-set, All-get_elem?, Option-cases, if◌then◌else◌, Partial, done, thrown, bind, bind-eq-done,
}
use mdt_dialout_collector.Common.Number.{ℤ}
use mdt_dialout_collector.Fsm.{
  State, create, read, finishing, closed, Stream, Completion, failed, completed, Turn, proceed,
  proceed_in,
}
use mdt_dialout_collector.Fsm.Pool.{
  Slot, spawned, issued, spawns, settle, dispatch, IsPending, Runs, here, next,
}

-- One operation is pending for a live stream, and none for a deleted one.
abbrev live : Option Stream → ℕ
live none = 0
live (some _) = 1

abbrev pub IsOwned : Slot → Type 0
IsOwned slot = slot.pending ≡ live slot.stream

abbrev is_create : State → Bool
is_create create = true
is_create _ = false

abbrev pub waits : Slot → Bool
waits slot = elim slot.stream [ none ↦ false | some s ↦ is_create s.state ]

-- A stream that waits for its call goes on to wait, as another, unless its turn fails.
abbrev pub still_waits : {M : Type 0} → Completion M → Bool → ℕ
still_waits failed _ = 0
still_waits (completed _) b = if b then 1 else 0

abbrev waiting : Option Stream → ℕ
waiting none = 0
waiting (some s) = if is_create s.state then 1 else 0

-- What a turn does to the operations and to the streams that wait.
abbrev Settles : {M W : Type 0} → State → Completion M → Partial (Turn W) → Type 0
Settles st c (thrown _) = Unit
Settles st c (done (stream, ops, _)) =
    (issued ops ≡ live stream)
    × All IsOwned (spawns ops)
    × (waiting stream + count waits (spawns ops) ≡ still_waits c (is_create st))

-- What holds of the pool behind a turn of a stream in state `st`, in terms of the pool before.
abbrev Kept : {M : Type 0} → State → Completion M → List Slot → List Slot → Type 0
Kept st c pool pool' =
    All IsOwned pool'
    × (count waits pool' + (if is_create st then 1 else 0)
        ≡ count waits pool + still_waits c (is_create st))

settle-Kept :
    {M W : Type 0} (c : Completion M) (s : Stream) (pool : List Slot) (i : ℕ) (turn : Turn W)
    → All IsOwned pool
    → get_elem? pool i ≡ some (record { stream = some s; pending = 1 })
    → Settles s.state c (done turn)
    → Kept s.state c pool (settle pool i 1 turn).0
settle-Kept c s pool i (stream, ops, w) owned found (ops_match, fresh, waiters) =
    let after : Slot = record { stream = stream; pending = 1 - 1 + issued ops } in
    (
      All-append IsOwned (set pool i after) (spawns ops)
          (All-set IsOwned pool i after owned (omega arith)) fresh,
      ground (
        arith,
        count-append waits (set pool i after) (spawns ops),
        count-set waits pool i after found,
      ),
    )

module _ {M W : Type 0} (handle_message : M → W → Partial W) (max_replies : ℤ) where
  proceed_in-Settles :
      (st : State) (replies : ℕ) (c : Completion M) (w : W)
      → Settles st c (proceed_in handle_message max_replies st replies c w)
  unfolding proceed_in
  proceed_in-Settles create replies failed w = (refl, tt, refl)
  proceed_in-Settles create replies (completed _) w = (refl, (refl, tt), refl)
  proceed_in-Settles read replies failed w = (refl, tt, refl)
  proceed_in-Settles read replies (completed m) w = ground arith
  proceed_in-Settles finishing replies failed w = (refl, tt, refl)
  proceed_in-Settles finishing replies (completed _) w = (refl, tt, refl)
  proceed_in-Settles closed replies failed w = (refl, tt, refl)
  proceed_in-Settles closed replies (completed _) w = (refl, tt, refl)

  -- A report finds its stream: the tag that the queue gives is not a deleted one.
  dispatch-live :
      (i : ℕ) (c : Completion M) (pool : List Slot) (w : W)
      → All IsOwned pool
      → IsPending pool i
      → (s : Stream) × (get_elem? pool i ≡ some (record { stream = some s; pending = 1 }))
        × (dispatch handle_message max_replies i c pool w
            ≡ bind (proceed handle_message max_replies c s w) λ turn. done (settle pool i 1 turn))
  unfolding dispatch
  dispatch-live i c pool w owned (slot, found, busy) = elim (Option-cases slot.stream) [
    | inl gone ↦ absurd (ground (arith, All-get_elem? IsOwned pool i owned found))
    | inr (s, is_live) ↦ (
      s,
      ground (arith, All-get_elem? IsOwned pool i owned found),
      ground (arith, All-get_elem? IsOwned pool i owned found),
    )
  ]

  -- What one report does to the pool, where each live stream has one pending operation and each
  -- deleted one has none: that holds again, and the streams that wait for a call are as many as
  -- before, or one fewer where a waiting stream's operation failed.
  pub dispatch-Kept :
      (i : ℕ) (c : Completion M) (pool : List Slot) (w : W) {pool' : List Slot} {w' : W}
      {s : Stream}
      → All IsOwned pool
      → get_elem? pool i ≡ some (record { stream = some s; pending = 1 })
      → dispatch handle_message max_replies i c pool w ≡ done (pool', w')
      → Kept s.state c pool pool'
  unfolding dispatch proceed
  dispatch-Kept i c pool w {pool'} {w'} {s} owned found h =
      let e : bind (proceed_in handle_message max_replies s.state s.replies c w)
            (λ turn. done (settle pool i 1 turn))
          ≡ done (pool', w') =
        ground arith in
      let (turn, moved, settled) =
        bind-eq-done (proceed_in handle_message max_replies s.state s.replies c w)
          (λ turn. done (settle pool i 1 turn)) {b = (pool', w')} e in
      subst (λ p. Kept s.state c pool p.0) (done-injective settled)
        (settle-Kept c s pool i turn owned found
          (rw moved at (proceed_in-Settles s.state s.replies c w)))

  -- The pool of a run: every slot has its one operation or none, and at most one stream waits.
  abbrev IsSound : List Slot → Type 0
  IsSound pool = All IsOwned pool × (count waits pool ≤ 1)

  dispatch-IsSound :
      (i : ℕ) (c : Completion M) (pool : List Slot) (w : W) {pool' : List Slot} {w' : W}
      → IsSound pool
      → IsPending pool i
      → dispatch handle_message max_replies i c pool w ≡ done (pool', w')
      → IsSound pool'
  dispatch-IsSound i c pool w (owned, few) busy h =
      let (s, found, _) = dispatch-live i c pool w owned busy in
      ground (arith, dispatch-Kept i c pool w owned found h)

  -- In every run of a server from its first stream, in which the queue reports pending operations
  -- alone: a stream that is there has exactly one operation pending and a deleted one has none, so
  -- that no report reaches a deleted stream; and at most one stream waits for a call.
  pub Runs-IsSound :
      (start : W) {pool : List Slot} {w : W}
      → Runs handle_message max_replies (spawned ∷ []) start pool w
      → All IsOwned pool × (count waits pool ≤ 1)
  Runs-IsSound start here = ((refl, tt), omega arith)
  Runs-IsSound start (next {pool} {v} i c r busy h) =
      dispatch-IsSound i c pool v (Runs-IsSound start r) busy h
