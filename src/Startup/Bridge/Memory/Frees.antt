-- ===== src/Startup/Bridge/Memory/Frees.antt =====
-- The blocks of the members of a structure, and FreeOptions behind InitOptions.
use mathlib.Core.List.{append_assoc, append-nil}
use mdt_dialout_collector.Common.{
  ℕ, suc, ◌+◌, String, Bool, true, false, none, some, List, [], ◌∷◌, ◌++◌, ◌≡◌, refl, sym, ◌∙◌, ap,
  subst, arith, length, length-append, get_elem?-append, set-append, replicate, done, thrown, bind,
  Partial-cases, Bool-cases, inl, inr,
}
use mdt_dialout_collector.Config.Params.{Params, value_at}
use mdt_dialout_collector.Startup.{Globals}
use mdt_dialout_collector.Startup.Bridge.Memory.{
  Blocks, Pointer, malloc, free, free_all, Leaves, granted, others, member_keys, with_member,
  copy_members, OptionsBlock, block_of, init_options_block, free_options,
}

-- How many pointers are not null.
abbrev pub taken : List Pointer → ℕ
taken [] = 0
taken (none ∷ ps) = taken ps
taken (some _ ∷ ps) = suc (taken ps)

-- The pointers that are not null are the addresses from this one on, in order.
abbrev pub NumberedFrom : ℕ → List Pointer → Type 0
NumberedFrom n [] = Unit
NumberedFrom n (none ∷ ps) = NumberedFrom n ps
NumberedFrom n (some i ∷ ps) = (i ≡ n) × NumberedFrom (n + 1) ps

pub length-snoc : (m : Blocks) (b : Bool) → length (m ++ (b ∷ [])) ≡ length m + 1
length-snoc m b = omega (arith, length-append m (b ∷ []))

-- One block between those before and those behind it.
free_one :
    (m : Blocks) (behind : Blocks)
    → free (some (length m)) (m ++ (true ∷ behind)) ≡ done (m ++ (false ∷ behind))
unfolding free
free_one m behind =
    rw (get_elem?-append m behind true, free) (ap done (set-append m behind true false))

pub snoc-append : (m behind : Blocks) (b : Bool) → (m ++ (b ∷ [])) ++ behind ≡ m ++ (b ∷ behind)
snoc-append m behind b = append_assoc m (b ∷ []) behind

pub free_all-NumberedFrom :
    (ps : List Pointer) (m behind : Blocks)
    → NumberedFrom (length m) ps
    → free_all ps (m ++ (replicate (taken ps) true ++ behind))
      ≡ done (m ++ (replicate (taken ps) false ++ behind))
unfolding free_all
free_all-NumberedFrom [] m behind _ = refl
free_all-NumberedFrom (none ∷ ps) m behind numbered = free_all-NumberedFrom ps m behind numbered
free_all-NumberedFrom (some i ∷ ps) m behind (here, numbered) =
    let rest =
      free_all-NumberedFrom ps (m ++ (false ∷ [])) behind
        (subst (λ n. NumberedFrom n ps) (sym (length-snoc m false)) numbered) in
    rw (here, free_one m (replicate (taken ps) true ++ behind))
      (rw
        (
          snoc-append m (replicate (taken ps) true ++ behind) false,
          snoc-append m (replicate (taken ps) false ++ behind) false,
        )
        at rest)

pub malloc-some :
    (b : Bool) (m : Blocks) → b ≡ true → malloc b m ≡ (some (length m), m ++ (true ∷ []))
unfolding malloc
malloc-some b m ok = rw ok refl

pub malloc-none : (b : Bool) (m : Blocks) → b ≡ false → malloc b m ≡ (none, m)
unfolding malloc
malloc-none b m failed = rw failed refl

-- What the copies of members leave behind: as many blocks more as there are pointers, or some blocks
-- where one throws.
abbrev pub Grown : Blocks → Leaves (List Pointer) → Type 0
Grown m (done ps, m') = (m' ≡ m ++ replicate (taken ps) true) × NumberedFrom (length m) ps
Grown m (thrown _, m') = (k : ℕ) × (m' ≡ m ++ replicate k true)

with_null-Grown :
    (m : Blocks) (left : Leaves (List Pointer)) → Grown m left → Grown m (with_member none left)
with_null-Grown m (done ps, m') grown = grown
with_null-Grown m (thrown e, m') grown = grown

with_block-Grown :
    (m : Blocks) (left : Leaves (List Pointer))
    → Grown (m ++ (true ∷ [])) left
    → Grown m (with_member (some (length m)) left)
with_block-Grown m (done ps, m') (same, numbered) = (
  same ∙ snoc-append m (replicate (taken ps) true) true,
  (refl, subst (λ n. NumberedFrom n ps) (length-snoc m true) numbered),
)
with_block-Grown m (thrown e, m') (k, same) = (suc k, same ∙ snoc-append m (replicate k true) true)

pub copy_members-Grown :
    (keys : List (Params × String)) (memory : List Bool) (m : Blocks)
    → Grown m (copy_members keys memory m)
unfolding copy_members
copy_members-Grown [] memory m = (sym (append-nil m), tt)
copy_members-Grown ((cfg, key) ∷ keys) memory m = elim (Partial-cases (value_at cfg key)) [
  | inr (e, h) ↦ rw (h, copy_members) (0, sym (append-nil m))
  | inl (v, h) ↦ elim (Bool-cases (granted memory)) [
    | inl ok ↦
        rw (h, malloc-some (granted memory) m ok, copy_members)
          (with_block-Grown m _ (copy_members-Grown keys (others memory) (m ++ (true ∷ []))))
    | inr failed ↦
        rw (h, malloc-none (granted memory) m failed, copy_members)
          (with_null-Grown m _ (copy_members-Grown keys (others memory) m))
  ]
]

-- The block of the structure, in front of those of its members.
pub structure_freed :
    (m : Blocks) (ps : List Pointer)
    → NumberedFrom (length m + 1) ps
    → (bind (free_all ps (m ++ replicate (suc (taken ps)) true)) λ m'. free (some (length m)) m')
      ≡ done (m ++ replicate (suc (taken ps)) false)
structure_freed m ps numbered =
    let members =
      free_all-NumberedFrom ps (m ++ (true ∷ [])) []
        (subst (λ n. NumberedFrom n ps) (sym (length-snoc m true)) numbered) in
    let freed : free_all ps (m ++ (true ∷ replicate (taken ps) true))
        ≡ done (m ++ (true ∷ replicate (taken ps) false)) =
      rw
        (
          append-nil (replicate (taken ps) true),
          append-nil (replicate (taken ps) false),
          snoc-append m (replicate (taken ps) true) true,
          snoc-append m (replicate (taken ps) false) true,
        )
        at members in
    rw freed (free_one m (replicate (taken ps) false))

-- FreeOptions gives back all that InitOptions has allocated, and nothing else; where InitOptions
-- throws, its blocks stay.
abbrev pub GivesBack : Blocks → Leaves OptionsBlock → Type 0
GivesBack m (done opts, m') =
    (k : ℕ) × (m' ≡ m ++ replicate (suc k) true)
    × (free_options opts m' ≡ done (m ++ replicate (suc k) false))
GivesBack m (thrown _, m') = (k : ℕ) × (m' ≡ m ++ replicate k true)

block_of-GivesBack :
    (m : Blocks) (left : Leaves (List Pointer))
    → Grown (m ++ (true ∷ [])) left
    → GivesBack m (block_of (length m) left)
unfolding free_options
block_of-GivesBack m (thrown e, m') (k, same) =
    (suc k, same ∙ snoc-append m (replicate k true) true)
block_of-GivesBack m (done ps, m') (same, numbered) =
    let all = same ∙ snoc-append m (replicate (taken ps) true) true in
    (
      taken ps,
      all,
      rw all (structure_freed m ps (subst (λ n. NumberedFrom n ps) (length-snoc m true) numbered)),
    )

-- Whatever the settings are, and whichever copies find no memory: where InitOptions returns,
-- FreeOptions on its result frees each block that InitOptions has allocated once, the structure and
-- the members, and no other block. Where InitOptions throws, it has freed nothing.
pub init_options_block-GivesBack :
    (g : Globals) (memory : List Bool) (m : Blocks) → GivesBack m (init_options_block g memory m)
unfolding init_options_block
init_options_block-GivesBack g memory m = elim (Bool-cases (granted memory)) [
  | inr failed ↦
      rw (malloc-none (granted memory) m failed, init_options_block) (0, sym (append-nil m))
  | inl ok ↦
      rw (malloc-some (granted memory) m ok, init_options_block)
        (block_of-GivesBack m (copy_members (member_keys g) (others memory) (m ++ (true ∷ [])))
          (copy_members-Grown (member_keys g) (others memory) (m ++ (true ∷ []))))
]
