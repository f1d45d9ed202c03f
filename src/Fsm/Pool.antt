-- ===== src/Fsm/Pool.antt =====
-- RunFsm: the streams of one server and its completion queue. A slot is a stream that was created,
-- with the number of its operations that the queue has yet to report; a tag is the slot's place.
use mdt_dialout_collector.Common.{
  ℕ, ◌+◌, ◌-◌, ◌<◌, Option, none, some, List, [], ◌∷◌, ◌++◌, ◌≡◌, get_elem?, set, Partial, done,
  thrown, bad_index, use_after_free, bind,
}
use mdt_dialout_collector.Common.Number.{ℤ}
use mdt_dialout_collector.Fsm.{
  Stream, new_stream, Completion, Op, spawn, start_read, start_finish, Turn, proceed,
}

pub record Slot : Type 0 where
  pub stream : Option Stream
  pub pending : ℕ

-- `Spawn`: a new stream waits for its call
abbrev pub spawned : Slot
spawned = record { stream = some new_stream; pending = 1 }

-- The operations that a turn starts on its own stream, and the streams that it spawns.
abbrev pub issued : List Op → ℕ
issued [] = 0
issued (spawn ∷ ops) = issued ops
issued (start_read ∷ ops) = issued ops + 1
issued (start_finish ∷ ops) = issued ops + 1

abbrev pub spawns : List Op → List Slot
spawns [] = []
spawns (spawn ∷ ops) = spawned ∷ spawns ops
spawns (start_read ∷ ops) = spawns ops
spawns (start_finish ∷ ops) = spawns ops

-- the pool after a turn of slot `i`
abbrev pub settle : {W : Type 0} → List Slot → ℕ → ℕ → Turn W → List Slot × W
settle pool i pending (stream, ops, w) =
    (set pool i (record { stream = stream; pending = pending - 1 + issued ops }) ++ spawns ops, w)

module _ {M W : Type 0} (handle_message : M → W → Partial W) (max_replies : ℤ) where
  -- `static_cast<Stream *>(tag)->Proceed(ok)` for the tag that the queue gives
  unfoldable pub dispatch : ℕ → Completion M → List Slot → W → Partial (List Slot × W)
  dispatch i c pool w = elim (get_elem? pool i) [
    | none ↦ thrown bad_index
    | some slot ↦ elim slot.stream [
      | none ↦ thrown use_after_free
      | some s ↦
          bind (proceed handle_message max_replies c s w)
            λ turn. done (settle pool i slot.pending turn)
    ]
  ]

  -- the loop of RunFsm over the events that the queue gives until it is shut down
  unfoldable pub run_events : List (ℕ × Completion M) → List Slot → W → Partial (List Slot × W)
  run_events [] pool w = done (pool, w)
  run_events ((i, c) ∷ events) pool w =
      bind (dispatch i c pool w) λ (pool', w'). run_events events pool' w'

  -- RunFsm
  unfoldable pub run_fsm : List (ℕ × Completion M) → W → Partial (List Slot × W)
  unfolding run_events
  run_fsm events = run_events events (spawned ∷ [])

-- The queue reports an operation of slot `i` only where one is pending.
abbrev pub IsPending : List Slot → ℕ → Type 0
IsPending pool i = (slot : Slot) × (get_elem? pool i ≡ some slot) × (0 < slot.pending)

-- A run in which every event is the report of a pending operation.
pub data Runs {M W : Type 0} (handle_message : M → W → Partial W) (max_replies : ℤ)
    (start : List Slot) (w : W) : List Slot → W → Type 0 where
  here : Runs handle_message max_replies start w start w
  next :
      {pool pool' : List Slot} {v v' : W} (i : ℕ) (c : Completion M)
      → Runs handle_message max_replies start w pool v
      → IsPending pool i
      → dispatch handle_message max_replies i c pool v ≡ done (pool', v')
      → Runs handle_message max_replies start w pool' v'
