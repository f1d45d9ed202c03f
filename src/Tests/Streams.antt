-- ===== src/Tests/Streams.antt =====
-- Streams, pools, the registry of servers and the peers at concrete inputs.
use mdt_dialout_collector.Common.{
  ℕ, ◌≤◌, Bool, true, false, none, some, List, [], ◌∷◌, ◌++◌, ◌≡◌, refl, arith, Partial, done, All,
  count, ◌⊎◌,
}
use mdt_dialout_collector.Common.Number.{pos}
use mdt_dialout_collector.Common.Text.{Bytes, codes, has}
use mdt_dialout_collector.Fsm.{read, new_stream, completed, proceed}
use mdt_dialout_collector.Fsm.Pool.{Slot, spawned, dispatch, Runs, here, next}
use mdt_dialout_collector.Fsm.Lifetime.{IsOwned, waits, Runs-IsSound}
use mdt_dialout_collector.Fsm.Serve.{handle_all, run_stream, run_stream_limited}
use mdt_dialout_collector.Server.Registry.{Vendor, cisco, nokia, Srv, Servers}
use mdt_dialout_collector.Peer.{no_peer, parse_peer}
use mdt_dialout_collector.Peer.RoundTrip.{
  plain_peer, bracket_peer, parse_peer-bracket_peer, parse_peer-plain_peer, parse_peer_sound,
}

-- A handler that keeps the messages.
abbrev pub keep : ℕ → List ℕ → Partial (List ℕ)
keep m w = done (w ++ (m ∷ []))

-- the pool after the first call: one stream reads, and another waits
abbrev two_streams : List Slot
two_streams =
    record { stream = some (record { state = read; replies = 0 }); pending = 1 } ∷ spawned ∷ []

first_call : Runs keep (pos 2) (spawned ∷ []) [] two_streams []
unfolding dispatch proceed
first_call = next 0 (completed 9) here (spawned, refl, omega arith) refl

Runs-IsSound_example : All IsOwned two_streams × (count waits two_streams ≤ 1)
Runs-IsSound_example = Runs-IsSound keep (pos 2) [] first_call

run_stream_limited_example :
    run_stream keep
      (pos 2)
      (completed 9 ∷ completed 5 ∷ completed 6 ∷ completed 7 ∷ [])
      new_stream
      []
    ≡ done (none, 5 ∷ 6 ∷ [])
unfolding handle_all
run_stream_limited_example =
    run_stream_limited keep 2 9 (5 ∷ 6 ∷ []) (completed 7) [] [] refl (omega arith) (omega arith)

abbrev running : Vendor → Bool → Srv
running v down = record {
  shutdown_done = down;
  active_vendor = v;
  has_server = true;
  has_cq = true;
}

abbrev two_servers : Servers
two_servers = record {
  heap = running cisco true ∷ running nokia false ∷ [];
  active = 0 ∷ 1 ∷ [];
  halted = [];
}

parse_peer-bracket_peer_example :
    parse_peer (codes "ipv6:[2001:db8::1]:57400")
    ≡ record { ip = codes "2001:db8::1"; port = codes "57400" }
unfolding has
parse_peer-bracket_peer_example =
    parse_peer-bracket_peer (codes "ipv6") (codes "2001:db8::1") (codes "57400") refl refl

parse_peer-plain_peer_example :
    parse_peer (codes "ipv4:192.0.2.7:57400")
    ≡ record { ip = codes "192.0.2.7"; port = codes "57400" }
unfolding has
parse_peer-plain_peer_example =
    parse_peer-plain_peer (codes "ipv4") (codes "192.0.2.7") (codes "57400") refl refl refl

parse_peer_sound_example :
    let p = parse_peer (codes "ipv4:192.0.2.7:57400") in
    (p ≡ no_peer)
    ⊎ ((family : Bytes) × (has b':' family ≡ false)
        × ((codes "ipv4:192.0.2.7:57400" ≡ bracket_peer family p.ip p.port)
              × (has b']' p.ip ≡ false)
            ⊎ (codes "ipv4:192.0.2.7:57400" ≡ plain_peer family p.ip p.port)
              × (has b':' p.port ≡ false)))
parse_peer_sound_example = parse_peer_sound (codes "ipv4:192.0.2.7:57400")
