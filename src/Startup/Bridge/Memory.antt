-- ===== src/Startup/Bridge/Memory.antt =====
-- The blocks that the C interface of the bridge allocates and frees: InitOptions and FreeOptions,
-- InitGrpcPayload and free_grpc_payload, block by block.
pub mod Frees
pub mod Leaks
pub mod Payloads
use mathlib.Core.List.{map}
use mdt_dialout_collector.Common.{
  ℕ, zero, suc, String, Bool, true, false, not, ◌||◌, Option, none, some, List, [], ◌∷◌, ◌++◌,
  length, get_elem?, set, if◌then◌else◌, Partial, done, thrown, use_after_free, null_pointer,
  exit_failure, bind,
}
use mdt_dialout_collector.Config.Params.{Params, value_at}
use mdt_dialout_collector.Startup.{Globals}
use mdt_dialout_collector.Startup.InitOptions.{main_keys, logs_keys, manipulation_keys}

-- Whether each block that was ever allocated still is; an address is a place.
abbrev pub Blocks : Type 0
Blocks = List Bool

-- none is the null pointer
abbrev pub Pointer : Type 0
Pointer = Option ℕ

-- `malloc` and `strndup`; whether there is memory is an input
unfoldable pub malloc : Bool → Blocks → Pointer × Blocks
malloc memory m = if memory then (some (length m), m ++ (true ∷ [])) else (none, m)

-- `free`
unfoldable pub free : Pointer → Blocks → Partial Blocks
free none m = done m
free (some i) m = elim (get_elem? m i) [
  | some true ↦ done (set m i false)
  | _ ↦ thrown use_after_free
]

-- calls of `free` in a row
unfoldable pub free_all : List Pointer → Blocks → Partial Blocks
unfolding free
free_all [] m = done m
free_all (p ∷ ps) m = bind (free p m) λ m'. free_all ps m'

-- What a function that may throw leaves behind: its result, and the blocks.
abbrev pub Leaves : Type 0 → Type 0
Leaves A = Partial A × Blocks

-- The head of what the allocations meet; there is no memory behind the end.
abbrev pub granted : List Bool → Bool
granted [] = false
granted (b ∷ _) = b

abbrev pub others : List Bool → List Bool
others [] = []
others (_ ∷ bs) = bs

-- the members of `Options`, each with the map and the key that it is read from
abbrev pub member_keys : Globals → List (Params × String)
member_keys g =
    map (λ key. (g.main, key)) main_keys
    ++ (map (λ key. (g.logs, key)) logs_keys
        ++ map (λ key. (g.data_manipulation, key)) manipulation_keys)

abbrev pub with_member : Pointer → Leaves (List Pointer) → Leaves (List Pointer)
with_member p (done ps, m) = (done (p ∷ ps), m)
with_member p (thrown e, m) = (thrown e, m)

-- `opts->member = dup(map.at(key))` for each member
unfoldable pub copy_members : List (Params × String) → List Bool → Blocks → Leaves (List Pointer)
copy_members [] memory m = (done [], m)
copy_members ((cfg, key) ∷ keys) memory m = elim (value_at cfg key) [
  | thrown e ↦ (thrown e, m)
  | done _ ↦
      let (p, m') = malloc (granted memory) m in
      with_member p (copy_members keys (others memory) m')
]

-- `Options`: its own block, and its members
pub record OptionsBlock : Type 0 where
  pub self : ℕ
  pub members : List Pointer

abbrev pub block_of : ℕ → Leaves (List Pointer) → Leaves OptionsBlock
block_of i (done ps, m) = (done (record { self = i; members = ps }), m)
block_of i (thrown e, m) = (thrown e, m)

-- InitOptions behind its `malloc`; a null `opts` is written through
abbrev pub init_members : Globals → List Bool → Pointer × Blocks → Leaves OptionsBlock
init_members g memory (none, m) = (thrown null_pointer, m)
init_members g memory (some i, m) = block_of i (copy_members (member_keys g) memory m)

-- InitOptions
unfoldable pub init_options_block : Globals → List Bool → Blocks → Leaves OptionsBlock
unfolding copy_members
init_options_block g memory m = init_members g (others memory) (malloc (granted memory) m)

-- FreeOptions
unfoldable pub free_options : OptionsBlock → Blocks → Partial Blocks
unfolding free_all
free_options opts m = bind (free_all opts.members m) λ m'. free (some opts.self) m'

-- calls of `strndup` in a row
unfoldable pub strndups : ℕ → List Bool → Blocks → List Pointer × Blocks
strndups zero memory m = ([], m)
strndups (suc n) memory m =
    let (p, m1) = malloc (granted memory) m in
    let (ps, m2) = strndups n (others memory) m1 in (p ∷ ps, m2)

abbrev pub has_null : List Pointer → Bool
has_null [] = false
has_null (none ∷ ps) = true
has_null (some _ ∷ ps) = has_null ps

-- `grpc_payload`, or the null pointer
pub data PayloadPointer : Type 0 where
  null : PayloadPointer
  payload_at : ℕ → List Pointer → PayloadPointer

-- free_grpc_payload; it also clears the members, in a block that it then frees
unfoldable pub free_payload_block : PayloadPointer → Blocks → Partial Blocks
unfolding free_all
free_payload_block null m = done m
free_payload_block (payload_at i members) m = bind (free_all members m) λ m'. free (some i) m'

-- the end of InitGrpcPayload where a member is null
abbrev pub exits : Blocks → Partial Blocks → Leaves PayloadPointer
exits m (done m') = (thrown exit_failure, m')
exits m (thrown e) = (thrown e, m)

-- InitGrpcPayload behind its allocations
abbrev pub check_members : ℕ → List Pointer × Blocks → Leaves PayloadPointer
check_members i (members, m) =
    if has_null members
    then exits m (free_payload_block (payload_at i members) m)
    else (done (payload_at i members), m)

abbrev pub copy_texts : List Bool → Pointer × Blocks → Leaves PayloadPointer
copy_texts memory (none, m) = (thrown exit_failure, m)
copy_texts memory (some i, m) = check_members i (strndups 6 memory m)

-- InitGrpcPayload
unfoldable pub init_payload_block : List Bool → Blocks → Leaves PayloadPointer
unfolding strndups free_payload_block
init_payload_block memory m = copy_texts (others memory) (malloc (granted memory) m)
