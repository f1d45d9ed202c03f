-- ===== src/Server/Mutator.antt =====
-- The socket mutator that the Bind functions give to gRPC's builder: UpdateArguments, which makes it,
-- the three functions of its table, and what log_socket_options logs. gRPC owns the mutator from
-- SetSocketMutator on and calls the function for destruction once.
use mdt_dialout_collector.Common.{
  ℕ, String, Bool, Option, none, some, List, [], ◌∷◌, ltb, if◌then◌else◌, ◌≡◌, arith, Partial, done,
  bind,
}
use mdt_dialout_collector.Common.Number.{ℤ, pos, negsuc}
use mdt_dialout_collector.Config.Params.{Params}
use mdt_dialout_collector.Server.Bind.{bindtodevice_socket_mutator}

-- GPR_ICMP
abbrev gpr_icmp : ℕ → ℕ → ℤ
gpr_icmp a b = if ltb a b then negsuc 0 else if ltb b a then pos 1 else pos 0

-- custom_socket_compare, of two addresses
unfoldable pub custom_socket_compare : ℕ → ℕ → ℤ
custom_socket_compare mutator1 mutator2 = gpr_icmp mutator1 mutator2

-- What `getsockopt(SO_TYPE)` gives.
pub data SockType : Type 0 where
  sock_stream sock_dgram sock_raw other_type : SockType

-- the texts of the switch
abbrev type_str : SockType → String
type_str sock_stream = "SOCK_STREAM (TCP)"
type_str sock_dgram = "SOCK_DGRAM (UDP)"
type_str sock_raw = "SOCK_RAW (Raw)"
type_str other_type = "Unknown Type"

-- A line of the log: the name and the value of an option, or the option that could not be read.
pub data Line : Type 0 where
  debug : String → String → Line
  error : String → Line

abbrev enabled : Bool → String
enabled on = if on then "Enabled" else "Disabled"

abbrev switch_line : String → Option Bool → Line
switch_line name (some on) = debug name (enabled on)
switch_line name none = error name

abbrev type_line : Option SockType → Line
type_line (some t) = debug "Socket Type" (type_str t)
type_line none = error "SO_TYPE"

-- What the kernel answers about a socket: its type, asked once before and once behind the binding,
-- the binding to the device, and the two options; none is a call that fails.
pub record Answers : Type 0 where
  pub has_type : Bool
  pub bound : Bool
  pub type : Option SockType
  pub keepalive : Option Bool
  pub reuseport : Option Bool

-- CustomSocketMutator::log_socket_options
unfoldable pub log_socket_options : Answers → List Line
log_socket_options a =
    type_line a.type
    ∷ switch_line "SO_KEEPALIVE" a.keepalive
    ∷ switch_line "SO_REUSEPORT" a.reuseport
    ∷ []

-- custom_socket_mutator_fd, with the lines that it leaves in the log about the socket
unfoldable pub custom_socket_mutator_fd : Params → Answers → Partial (Bool × List Line)
unfolding log_socket_options
custom_socket_mutator_fd main_cfg a =
    bind (bindtodevice_socket_mutator main_cfg a.has_type a.bound)
      λ ok. done (ok, log_socket_options a)

-- A comparison as gRPC asks for it: it tells equal mutators from others, and orders them.
record IsOrder (compare : ℕ → ℕ → ℤ) : Type 0 where
  pub same : (a : ℕ) → compare a a ≡ pos 0
  pub equal : (a b : ℕ) → compare a b ≡ pos 0 → a ≡ b
  pub turned : (a b : ℕ) → compare a b ≡ negsuc 0 → compare b a ≡ pos 1
  pub turned_back : (a b : ℕ) → compare a b ≡ pos 1 → compare b a ≡ negsuc 0
  pub transitive :
      (a b c : ℕ) → compare a b ≡ negsuc 0 → compare b c ≡ negsuc 0 → compare a c ≡ negsuc 0

-- The comparison of the addresses is an order, under which a mutator is equal to itself only.
custom_socket_compare-IsOrder : IsOrder custom_socket_compare
unfolding custom_socket_compare
custom_socket_compare-IsOrder = record {
  same = λ a. ground arith;
  equal = λ a b h. ground arith;
  turned = λ a b h. ground arith;
  turned_back = λ a b h. ground arith;
  transitive = λ a b c h k. ground arith;
}
