-- ===== src/Startup/Bridge/Memory/Leaks.antt =====
-- InitOptions for a configuration that leaves a vendor out: what it leaves behind.
use text.Mathlib.Text.{◌==◌}
use mdt_dialout_collector.Common.{
  ℕ, zero, suc, String, Bool, true, none, some, List, [], ◌∷◌, ◌++◌, ◌≡◌, refl, ◌∙◌, length,
  get_elem?, replicate, thrown, out_of_range, Option-cases, inl, inr, ◌⊎◌, arith, done,
}
use mdt_dialout_collector.Config.Params.{Params, find, value_at}
use mdt_dialout_collector.Config.Load.{Config}
use mdt_dialout_collector.Config.Main.{cisco_keys, juniper_keys, nokia_keys, huawei_keys}
use mdt_dialout_collector.Config.Main.Workers.{socket_value}
use mdt_dialout_collector.Config.Main.Reads.{MainReads}
use mdt_dialout_collector.Startup.{Globals}
use mdt_dialout_collector.Startup.InitOptions.{unset-missing}
use mdt_dialout_collector.Startup.Bridge.Memory.{
  Blocks, Pointer, malloc, Leaves, granted, others, member_keys, with_member, copy_members,
  block_of, init_options_block,
}
use mdt_dialout_collector.Startup.Bridge.Memory.Frees.{
  Grown, copy_members-Grown, snoc-append, malloc-some,
}

-- The copies have thrown for a missing key.
abbrev Misses : Leaves (List Pointer) → Type 0
Misses r = r.0 ≡ thrown out_of_range

with_member-Misses : (p : Pointer) (r : Leaves (List Pointer)) → Misses r → Misses (with_member p r)
with_member-Misses p (done ps, m) h = cc
with_member-Misses p (thrown e, m) h = h

value_at_missing :
    (cfg : Params) (key : String) → find key cfg ≡ none → value_at cfg key ≡ thrown out_of_range
unfolding value_at
value_at_missing cfg key h = rw h refl

value_at_found : (cfg : Params) (key v : String) → find key cfg ≡ some v → value_at cfg key ≡ done v
unfolding value_at
value_at_found cfg key v h = rw h refl

copy_members-Misses :
    (keys : List (Params × String)) (i : ℕ) (memory : List Bool) (m : Blocks) {cfg : Params}
    {key : String}
    → get_elem? keys i ≡ some (cfg, key)
    → find key cfg ≡ none
    → Misses (copy_members keys memory m)
unfolding copy_members
copy_members-Misses [] i memory m at missing = absurd (cc)
copy_members-Misses ((cfg, key) ∷ keys) zero memory m {cfg = cfg'} {key = key'} at missing =
    let gone : find key cfg ≡ none = ground arith in
    rw (value_at_missing cfg key gone, copy_members) refl
copy_members-Misses ((cfg, key) ∷ keys) (suc i) memory m at missing =
    elim (Option-cases (find key cfg)) [
      | inl gone ↦ rw (value_at_missing cfg key gone, copy_members) refl
      | inr (v, there) ↦
          rw (value_at_found cfg key v there, copy_members)
            (with_member-Misses (malloc (granted memory) m).0 _
              (copy_members-Misses keys i (others memory) (malloc (granted memory) m).1 at missing))
    ]

-- What is left of a throw.
leaks :
    (m : Blocks) (r : Leaves (List Pointer))
    → Grown (m ++ (true ∷ [])) r
    → Misses r
    → (k : ℕ) × (block_of (length m) r ≡ (thrown out_of_range, m ++ replicate (suc k) true))
leaks m (done ps, m') grown h = absurd (cc)
leaks m (thrown e, m') (k, same) h =
    let left = same ∙ snoc-append m (replicate k true) true in (k, cc)

-- For an accepted file in which some vendor has no socket, and where there is memory for the
-- structure, InitOptions throws std::out_of_range and leaves at least one block allocated that was
-- not so before.
pub init_options_block_leaks :
    (cfg : Config) (g : Globals) (memory : List Bool) (m : Blocks)
    → MainReads cfg g.main
    → ((socket_value cfg cisco_keys == "") ≡ true)
      ⊎ (((socket_value cfg juniper_keys == "") ≡ true)
          ⊎ (((socket_value cfg nokia_keys == "") ≡ true)
              ⊎ ((socket_value cfg huawei_keys == "") ≡ true)))
    → granted memory ≡ true
    → (k : ℕ) × (init_options_block g memory m ≡ (thrown out_of_range, m ++ replicate (suc k) true))
unfolding init_options_block
init_options_block_leaks cfg g memory m r unset ok = rw (malloc-some (granted memory) m ok) (
    leaks m (copy_members (member_keys g) (others memory) (m ++ (true ∷ [])))
      (copy_members-Grown (member_keys g) (others memory) (m ++ (true ∷ []))) (misses unset))
  where
    misses :
        ((socket_value cfg cisco_keys == "") ≡ true)
          ⊎ (((socket_value cfg juniper_keys == "") ≡ true)
              ⊎ (((socket_value cfg nokia_keys == "") ≡ true)
                  ⊎ ((socket_value cfg huawei_keys == "") ≡ true)))
        → Misses (copy_members (member_keys g) (others memory) (m ++ (true ∷ [])))
    misses (inl e) =
        copy_members-Misses (member_keys g) 6 (others memory) (m ++ (true ∷ [])) refl
          (unset-missing cfg cisco_keys g.main r.cisco e)
    misses (inr (inl e)) =
        copy_members-Misses (member_keys g) 7 (others memory) (m ++ (true ∷ [])) refl
          (unset-missing cfg juniper_keys g.main r.juniper e)
    misses (inr (inr (inl e))) =
        copy_members-Misses (member_keys g) 8 (others memory) (m ++ (true ∷ [])) refl
          (unset-missing cfg nokia_keys g.main r.nokia e)
    misses (inr (inr (inr e))) =
        copy_members-Misses (member_keys g) 9 (others memory) (m ++ (true ∷ [])) refl
          (unset-missing cfg huawei_keys g.main r.huawei e)
