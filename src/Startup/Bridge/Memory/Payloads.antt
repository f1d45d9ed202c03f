-- ===== src/Startup/Bridge/Memory/Payloads.antt =====
-- InitGrpcPayload where memory runs out, and free_grpc_payload.
use mathlib.Core.List.{append-nil}
use mdt_dialout_collector.Common.{
  ℕ, zero, suc, Bool, true, false, List, [], ◌∷◌, ◌++◌, ◌≡◌, refl, sym, ◌∙◌, ap, subst, length,
  replicate, done, thrown, exit_failure, Bool-cases, inl, inr,
}
use mdt_dialout_collector.Startup.Bridge.Memory.{
  Blocks, Pointer, Leaves, granted, others, strndups, has_null, PayloadPointer, payload_at,
  free_payload_block, check_members, init_payload_block,
}
use mdt_dialout_collector.Startup.Bridge.Memory.Frees.{
  taken, NumberedFrom, length-snoc, snoc-append, structure_freed, malloc-some, malloc-none,
}

-- The pointers of some copies, and the blocks behind them.
abbrev Copied : ℕ → Blocks → List Pointer × Blocks → Type 0
Copied n m (ps, m') =
    (m' ≡ m ++ replicate (taken ps) true)
    × NumberedFrom (length m) ps
    × (has_null ps ≡ false → taken ps ≡ n)

strndups-Copied : (n : ℕ) (memory : List Bool) (m : Blocks) → Copied n m (strndups n memory m)
unfolding strndups
strndups-Copied zero memory m = (sym (append-nil m), tt, λ _. refl)
strndups-Copied (suc n) memory m = elim (Bool-cases (granted memory)) [
  | inl ok ↦
      let (same, numbered, full) = strndups-Copied n (others memory) (m ++ (true ∷ [])) in
      rw (malloc-some (granted memory) m ok, strndups)
        (
          same
              ∙ snoc-append m
                  (replicate (taken (strndups n (others memory) (m ++ (true ∷ []))).0) true) true,
          (
            refl,
            subst (λ k. NumberedFrom k (strndups n (others memory) (m ++ (true ∷ []))).0)
                (length-snoc m true) numbered,
          ),
          λ h. ap suc (full h),
        )
  | inr failed ↦
      let (same, numbered, _) = strndups-Copied n (others memory) m in
      rw (malloc-none (granted memory) m failed, strndups) (same, numbered, λ h. cc)
]

-- InitGrpcPayload gives a payload all of whose blocks free_grpc_payload gives back, or ends the
-- process with none of them left.
abbrev pub IsWhole : Blocks → Leaves PayloadPointer → Type 0
IsWhole m (done p, m') =
    (m' ≡ m ++ replicate 7 true) × (free_payload_block p m' ≡ done (m ++ replicate 7 false))
IsWhole m (thrown e, m') = (e ≡ exit_failure) × (k : ℕ) × (m' ≡ m ++ replicate k false)

made :
    (m : Blocks) (ps : List Pointer) (m2 : Blocks)
    → Copied 6 (m ++ (true ∷ [])) (ps, m2)
    → IsWhole m (check_members (length m) (ps, m2))
unfolding free_payload_block
made m ps m2 (same, numbered, full) =
    let all = same ∙ snoc-append m (replicate (taken ps) true) true in
    let freed : free_payload_block (payload_at (length m) ps) m2
        ≡ done (m ++ replicate (suc (taken ps)) false) =
      rw all
        (structure_freed m ps (subst (λ n. NumberedFrom n ps) (length-snoc m true) numbered)) in
    elim (Bool-cases (has_null ps)) [
      | inl some_null ↦ rw (some_null, freed) (refl, suc (taken ps), refl)
      | inr whole ↦ rw whole (rw (full whole) at all, rw (full whole) at freed)
    ]

-- Whichever of its allocations find no memory: InitGrpcPayload returns a payload with all of its
-- seven blocks, and free_grpc_payload on it frees each of these once and no other block; or it ends
-- the process with EXIT_FAILURE, and then it has freed all that it had allocated.
pub init_payload_block-IsWhole :
    (memory : List Bool) (m : Blocks) → IsWhole m (init_payload_block memory m)
unfolding init_payload_block
init_payload_block-IsWhole memory m = elim (Bool-cases (granted memory)) [
  | inr failed ↦
      rw (malloc-none (granted memory) m failed, init_payload_block) (refl, 0, sym (append-nil m))
  | inl ok ↦
      rw (malloc-some (granted memory) m ok, init_payload_block)
        (made m (strndups 6 (others memory) (m ++ (true ∷ []))).0
          (strndups 6 (others memory) (m ++ (true ∷ []))).1
          (strndups-Copied 6 (others memory) (m ++ (true ∷ []))))
]
