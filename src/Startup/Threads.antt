-- ===== src/Startup/Threads.antt =====
-- LoadThreads, of the daemon and of the bridge: the threads of one vendor.
use mdt_dialout_collector.Common.{
  ℕ, suc, ◌≤◌, String, Bool, true, false, ◌&&◌, some, List, [], ◌∷◌, Partial, done, thrown,
  exit_failure, bind, leb, if◌then◌else◌, ◌≡◌, refl, arith, ◌⊎◌, inl, inr, Bool-cases,
  Partial-cases, zero,
}
use mdt_dialout_collector.Common.Number.{ℤ, pos, negsuc, stoi}
use mdt_dialout_collector.Common.Text.{codes, is_empty}
use mdt_dialout_collector.Config.Params.{Params, find, value_at}

-- what the `try` block reads; what it throws are exceptions of the standard library
unfoldable pub read_amounts : Params → String → String → Partial (ℤ × ℤ)
read_amounts cfg replies_str workers_str =
    bind (bind (value_at cfg replies_str) λ s. stoi (codes s)) λ replies.
      bind (bind (value_at cfg workers_str) λ s. stoi (codes s)) λ workers. done (replies, workers)

-- not `n < low || n > high`
abbrev pub within : ℕ → ℕ → ℤ → Bool
within low high (pos n) = leb low n && leb n high
within low high (negsuc n) = false

abbrev pub magnitude : ℤ → ℕ
magnitude (pos n) = n
magnitude (negsuc n) = 0

-- the loop that makes a thread for each worker
abbrev pub start_workers : ℕ → String → List String
start_workers zero socket_str = []
start_workers (suc n) socket_str = socket_str ∷ start_workers n socket_str

-- LoadThreads of the daemon: the sockets that its new threads serve
unfoldable pub load_threads : Params → String → String → String → Partial (List String)
load_threads cfg socket_str replies_str workers_str = bind (value_at cfg socket_str) λ socket.
    if is_empty (codes socket) then done [] else elim (read_amounts cfg replies_str workers_str) [
      | thrown _ ↦ thrown exit_failure
      | done (replies, workers) ↦
          if within 0 1000 replies
          then (if within 1 5 workers
              then done (start_workers (magnitude workers) socket_str)
              else thrown exit_failure)
          else thrown exit_failure
    ]

-- the loop of the bridge, over whether each `pthread_create` succeeds
abbrev pub create_workers : ℕ → List Bool → String → List String
create_workers zero created socket_str = []
create_workers (suc n) [] socket_str = socket_str ∷ create_workers n [] socket_str
create_workers (suc n) (ok ∷ created) socket_str =
    let rest = create_workers n created socket_str in if ok then socket_str ∷ rest else rest

-- LoadThreads of the bridge: what it registers in `g_active_workers`; `created` says of which
-- threads the creation fails, and those beyond it succeed
unfoldable pub load_bridge_threads :
    Params → List Bool → String → String → String → Partial (List String)
load_bridge_threads cfg created socket_str replies_str workers_str =
    bind (value_at cfg socket_str) λ socket.
      if is_empty (codes socket) then done [] else elim (read_amounts cfg replies_str workers_str) [
        | thrown _ ↦ done []
        | done (replies, workers) ↦
            if within 0 1000 replies
            then (if within 1 5 workers
                then done (create_workers (magnitude workers) created socket_str)
                else done [])
            else done []
      ]

-- The amounts that let a vendor's threads start: replies from 0 to 1000, workers from 1 to 5.
abbrev pub Amounts : Params → String → String → ℕ → ℕ → Type 0
Amounts cfg replies_str workers_str replies workers =
    (read_amounts cfg replies_str workers_str ≡ done (pos replies, pos workers))
    × (replies ≤ 1000)
    × (1 ≤ workers)
    × (workers ≤ 5)

pub within-cases :
    (low high : ℕ) (z : ℤ)
    → ((n : ℕ) × (z ≡ pos n) × (low ≤ n) × (n ≤ high) × (within low high z ≡ true))
      ⊎ (within low high z ≡ false)
within-cases low high (pos n) = elim (Bool-cases (within low high (pos n))) [
  | inl e ↦ inl (n, refl, ground arith, ground arith, e)
  | inr e ↦ inr e
]
within-cases low high (negsuc n) = inr refl

-- For a vendor whose socket is known, LoadThreads of the daemon starts no thread where the socket is
-- the empty text. Otherwise, where the amounts are numbers, replies from 0 to 1000 and workers from
-- 1 to 5, it starts as many threads of this socket as there are workers, and where they are not it
-- ends the process.
pub load_threads-cases :
    (cfg : Params) (socket_str replies_str workers_str : String) {socket : String}
    → find socket_str cfg ≡ some socket
    → ((is_empty (codes socket) ≡ true)
        × (load_threads cfg socket_str replies_str workers_str ≡ done []))
      ⊎ (((replies : ℕ) × (workers : ℕ) × Amounts cfg replies_str workers_str replies workers
            × (load_threads cfg socket_str replies_str workers_str
                ≡ done (start_workers workers socket_str)))
          ⊎ (((replies workers : ℕ) → ¬ Amounts cfg replies_str workers_str replies workers)
              × (load_threads cfg socket_str replies_str workers_str ≡ thrown exit_failure)))
unfolding load_threads value_at
load_threads-cases cfg socket_str replies_str workers_str {socket} h =
    elim (Bool-cases (is_empty (codes socket))) [
      | inl e ↦ inl (e, ground arith)
      | inr e ↦ elim (Partial-cases (read_amounts cfg replies_str workers_str)) [
        | inr (x, read) ↦ inr (inr ((λ r n a. ground arith), ground arith))
        | inl ((replies, workers), read) ↦ elim (within-cases 0 1000 replies) [
          | inr off ↦ inr (inr ((λ r n a. ground arith), ground arith))
          | inl (r, is_r, _, few, on) ↦ elim (within-cases 1 5 workers) [
            | inr off ↦ inr (inr ((λ r n a. ground arith), ground arith))
            | inl (n, is_n, some_workers, few_workers, on_workers) ↦
                inr (inl (r, n, (ground arith, few, some_workers, few_workers), ground arith))
          ]
        ]
      ]
    ]

create_workers_all :
    (n : ℕ) (socket_str : String) → create_workers n [] socket_str ≡ start_workers n socket_str
create_workers_all zero socket_str = refl
create_workers_all (suc n) socket_str = rw (create_workers_all n socket_str)

-- No thread in place of the end of the process.
abbrev pub or_none : Partial (List String) → Partial (List String)
or_none (done threads) = done threads
or_none (thrown exit_failure) = done []
or_none (thrown e) = thrown e

-- The bridge registers the threads that the daemon would start, where all creations succeed, and
-- none where the daemon would end the process; a vendor whose socket is not known is an exception in
-- both.
pub load_bridge_threads-load_threads :
    (cfg : Params) (socket_str replies_str workers_str : String)
    → load_bridge_threads cfg [] socket_str replies_str workers_str
      ≡ or_none (load_threads cfg socket_str replies_str workers_str)
unfolding load_threads load_bridge_threads value_at
load_bridge_threads-load_threads cfg socket_str replies_str workers_str =
    elim (Partial-cases (read_amounts cfg replies_str workers_str)) [
      | inl ((replies, workers), read) ↦
          ground (arith, create_workers_all (magnitude workers) socket_str)
      | inr (e, read) ↦ ground arith
    ]
