-- ===== src/Peer.antt =====
-- src/utils/peer_parser.cc: the address and the port in gRPC's name of a peer.
pub mod RoundTrip
use mdt_dialout_collector.Common.{none, some, [], ◌∷◌, ◌==◌, if◌then◌else◌}
use mdt_dialout_collector.Common.Text.{Bytes, split_first, split_last}

pub record PeerEndpoint : Type 0 where
  pub ip : Bytes
  pub port : Bytes

-- `PeerEndpoint out;`, which every failure returns
abbrev pub no_peer : PeerEndpoint
no_peer = record { ip = []; port = [] }

-- behind the closing bracket there has to be a colon, and the port
after_bracket : Bytes → Bytes → PeerEndpoint
after_bracket ip [] = no_peer
after_bracket ip (c ∷ port) = if c == b':' then record { ip = ip; port = port } else no_peer

-- `addr_port`, behind the family prefix: "[addr]:port" or "addr:port"
parse_addr_port : Bytes → PeerEndpoint
unfolding after_bracket split_first split_last
parse_addr_port [] = no_peer
parse_addr_port (c ∷ rest) =
    if c == b'['
    then elim (split_first b']' rest) [
      | none ↦ no_peer
      | some (ip, behind) ↦ after_bracket ip behind
    ]
    else elim (split_last b':' (c ∷ rest)) [
      | none ↦ no_peer
      | some (ip, port) ↦ record { ip = ip; port = port }
    ]

-- ParsePeer
unfoldable pub parse_peer : Bytes → PeerEndpoint
unfolding parse_addr_port
parse_peer peer = elim (split_first b':' peer) [
  | none ↦ no_peer
  | some (_, addr_port) ↦ parse_addr_port addr_port
]
