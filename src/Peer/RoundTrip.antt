-- ===== src/Peer/RoundTrip.antt =====
-- What the parser of peers reads back, and what it refuses.
use mdt_dialout_collector.Common.{
  false, [], ◌∷◌, ◌++◌, ◌≡◌, ◌⊎◌, inl, inr, refl, arith, ◌==◌, Bool-cases, Option-cases,
}
use mdt_dialout_collector.Common.Text.{Bytes, split_first, split_last, has}
use mdt_dialout_collector.Common.Text.Split.{
  split_first-append, split_first_sound, split_last-append, split_last_sound,
}
use mdt_dialout_collector.Peer.{PeerEndpoint, no_peer, after_bracket, parse_addr_port, parse_peer}

-- "family:addr:port" and "family:[addr]:port"
abbrev pub plain_peer : Bytes → Bytes → Bytes → Bytes
plain_peer family ip port = family ++ (b':' ∷ (ip ++ (b':' ∷ port)))

abbrev pub bracket_peer : Bytes → Bytes → Bytes → Bytes
bracket_peer family ip port = family ++ (b':' ∷ b'[' ∷ (ip ++ (b']' ∷ b':' ∷ port)))

-- An address in brackets is read back without them, with its port, whatever colons it holds, if
-- it has no closing bracket and the family has no colon.
pub parse_peer-bracket_peer :
    (family ip port : Bytes)
    → has b':' family ≡ false
    → has b']' ip ≡ false
    → parse_peer (bracket_peer family ip port) ≡ record { ip = ip; port = port }
unfolding parse_peer
parse_peer-bracket_peer family ip port f a =
    rw (split_first-append b':' family (b'[' ∷ (ip ++ (b']' ∷ b':' ∷ port))) f, parse_peer)
      (unfold parse_addr_port after_bracket in rw (split_first-append b']' ip (b':' ∷ port) a))

-- The text does not begin with an opening bracket.
abbrev pub Unbracketed : Bytes → Type 0
Unbracketed [] = Unit
Unbracketed (c ∷ _) = (c == b'[') ≡ false

parse_addr_port-plain :
    (ip port : Bytes)
    → Unbracketed ip
    → has b':' port ≡ false
    → parse_addr_port (ip ++ (b':' ∷ port)) ≡ record { ip = ip; port = port }
unfolding parse_addr_port
parse_addr_port-plain [] port u h = ground (arith, split_last-append b':' [] port h)
parse_addr_port-plain (c ∷ ip) port u h = ground (arith, split_last-append b':' (c ∷ ip) port h)

-- An address without brackets is read back with its port, which is what stands behind the last
-- colon, if the family has no colon.
pub parse_peer-plain_peer :
    (family ip port : Bytes)
    → has b':' family ≡ false
    → Unbracketed ip
    → has b':' port ≡ false
    → parse_peer (plain_peer family ip port) ≡ record { ip = ip; port = port }
unfolding parse_peer
parse_peer-plain_peer family ip port f u h =
    rw (split_first-append b':' family (ip ++ (b':' ∷ port)) f, parse_peer)
      (parse_addr_port-plain ip port u h)

-- The two shapes of a peer that the parser takes apart.
abbrev IsRead : Bytes → PeerEndpoint → Type 0
IsRead s p =
    (s ≡ b'[' ∷ (p.ip ++ (b']' ∷ b':' ∷ p.port))) × (has b']' p.ip ≡ false)
    ⊎ (s ≡ p.ip ++ (b':' ∷ p.port)) × (has b':' p.port ≡ false)

after_bracket_sound :
    (ip s : Bytes)
    → (after_bracket ip s ≡ no_peer)
      ⊎ (s ≡ b':' ∷ (after_bracket ip s).port) × ((after_bracket ip s).ip ≡ ip)
unfolding after_bracket
after_bracket_sound ip [] = inl refl
after_bracket_sound ip (c ∷ s) = ground arith

parse_addr_port_sound : (s : Bytes) → (parse_addr_port s ≡ no_peer) ⊎ IsRead s (parse_addr_port s)
unfolding parse_addr_port
parse_addr_port_sound [] = inl refl
parse_addr_port_sound (c ∷ rest) = elim (Bool-cases (c == b'[')) [
  | inl bracket ↦ elim (Option-cases (split_first b']' rest)) [
    | inl fails ↦ inl (ground arith)
    | inr ((ip, behind), found) ↦
        ground (arith, split_first_sound b']' rest found, after_bracket_sound ip behind)
  ]
  | inr plain ↦ elim (Option-cases (split_last b':' (c ∷ rest))) [
    | inl fails ↦ inl (ground arith)
    | inr ((ip, port), found) ↦ ground (arith, split_last_sound b':' (c ∷ rest) found)
  ]
]

-- A failure gives two empty texts. Whatever else the parser returns was written in the peer's
-- name: behind a family without a colon stand the address in brackets, which holds no closing
-- one, or the bare address, and a colon and the port; the port of a bare address holds no colon.
pub parse_peer_sound :
    (peer : Bytes)
    → let p = parse_peer peer in
      (p ≡ no_peer)
      ⊎ ((family : Bytes) × (has b':' family ≡ false)
          × ((peer ≡ bracket_peer family p.ip p.port) × (has b']' p.ip ≡ false)
              ⊎ (peer ≡ plain_peer family p.ip p.port) × (has b':' p.port ≡ false)))
unfolding parse_peer
parse_peer_sound peer = elim (Option-cases (split_first b':' peer)) [
  | inl fails ↦ inl (ground arith)
  | inr ((family, rest), found) ↦ elim (parse_addr_port_sound rest) [
    | inl fails ↦ inl (ground arith)
    | inr read ↦ inr (
      family,
      (split_first_sound b':' peer found).1,
      ground (arith, split_first_sound b':' peer found),
    )
  ]
]
