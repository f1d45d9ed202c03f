-- ===== src/Delivery/Zmq/Client.antt =====
-- src/pmtelemetryd.c, the example of a host process in C: it takes the payloads from the socket, and
-- prints and frees them.
use mdt_dialout_collector.Common.{
  ℕ, Bool, true, false, Option, none, some, List, [], ◌∷◌, ◌++◌, ◌≡◌, refl, ◌∙◌, sym, subst, length,
  get_elem?, get_elem?-set_self, get_elem?-lt, set, replicate, arith, Partial, done, thrown, bind,
  bind-eq-done, Fault, null_pointer, use_after_free, done-injective, ap,
}
use mathlib.Core.List.{append_assoc, append-nil}
use mdt_dialout_collector.Delivery.Zmq.{
  GrpcPayload, Zmq, free_grpc_payload, print_payload, zmq_poller,
}
use mdt_dialout_collector.Delivery.Zmq.Queue.{Holds, Carries}
use mdt_dialout_collector.Delivery.Zmq.Refines.{zmq_poller-Carries}

-- `pload` and the socket behind `zmq_recv`, whose result is not read: where it fails, `pload` is
-- what it was; where the socket carries nothing, the call does not return
abbrev pub receive : Bool → Option ℕ → Zmq → Option (Option ℕ × Zmq)
receive false pload z = some (pload, z)
receive true pload z = elim z.queue [
  | [] ↦ none
  | ptr ∷ queue ↦ some (some ptr, record z { queue = queue })
]

-- the six calls of `printf`, and `free_grpc_payload`
abbrev pub use_payload : Option ℕ → Zmq → Partial Zmq
use_payload none z = thrown null_pointer
use_payload (some ptr) z = print_payload ptr z

-- the loop of main, over whether each `zmq_recv` succeeds
unfoldable pub run_client : List Bool → Option ℕ → Zmq → Partial (Option ℕ × Zmq)
run_client [] pload z = done (pload, z)
run_client (ok ∷ oks) pload z = elim (receive ok pload z) [
  | none ↦ done (pload, z)
  | some (pload', z') ↦ bind (use_payload pload' z') λ z''. run_client oks pload' z''
]

-- A pointer that is null, or whose payload has been freed, and what its use comes to.
abbrev Stale : Option ℕ → Zmq → Type 0
Stale none z = Unit
Stale (some ptr) z = get_elem? z.heap ptr ≡ some none

abbrev fault_of : Option ℕ → Fault
fault_of none = null_pointer
fault_of (some _) = use_after_free

-- The last pointer of this many, after another one.
abbrev pub fault_after : Option ℕ → List GrpcPayload → Fault
fault_after pload [] = fault_of pload
fault_after pload (_ ∷ _) = use_after_free

free_grpc_payload-Stale :
    (ptr : ℕ) (z : Zmq) {z' : Zmq} → free_grpc_payload ptr z ≡ done z' → Stale (some ptr) z'
unfolding free_grpc_payload
free_grpc_payload-Stale ptr z {z'} h = go (get_elem? z.heap ptr) refl
  where
    go : (o : Option (Option GrpcPayload)) → get_elem? z.heap ptr ≡ o → Stale (some ptr) z'
    go none at = absurd (ground arith)
    go (some none) at = absurd (ground arith)
    go (some (some p)) at =
        let freed : free_grpc_payload ptr z ≡ done (record z { heap = set z.heap ptr none }) =
          rw (at, free_grpc_payload) refl in
        subst (λ z'. Stale (some ptr) z') (done-injective (sym freed ∙ h))
          (get_elem?-set_self z.heap ptr none (get_elem?-lt z.heap ptr at))

print_payload-Stale :
    (ptr : ℕ) (z : Zmq) {z' : Zmq} → print_payload ptr z ≡ done z' → Stale (some ptr) z'
unfolding print_payload
print_payload-Stale ptr z {z'} h = go (get_elem? z.heap ptr) refl
  where
    go : (o : Option (Option GrpcPayload)) → get_elem? z.heap ptr ≡ o → Stale (some ptr) z'
    go none at = absurd (ground arith)
    go (some none) at = absurd (ground arith)
    go (some (some p)) at =
        free_grpc_payload-Stale ptr (record z { printed = z.printed ++ (p ∷ []) })
          (rw (at, print_payload) at h)

run_client_failed :
    (pload : Option ℕ) (z : Zmq) (oks : List Bool)
    → Stale pload z
    → run_client (false ∷ oks) pload z ≡ thrown (fault_of pload)
unfolding run_client print_payload
run_client_failed none z oks stale = refl
run_client_failed (some ptr) z oks stale = rw (stale, run_client, print_payload) refl

-- A round that receives is a poll of ZmqPoller.
round_polls :
    (pload : Option ℕ) (z : Zmq) (p : GrpcPayload) (ps : List GrpcPayload)
    → Carries z (p ∷ ps)
    → (z' : Zmq) × (ptr : ℕ) × ((oks : List Bool)
        → run_client (true ∷ oks) pload z ≡ run_client oks (some ptr) z')
      × Carries z' ps
      × (z'.printed ≡ z.printed ++ (p ∷ []))
      × Stale (some ptr) z'
unfolding run_client zmq_poller
round_polls pload z p ps c = go z.queue refl
  where
    go :
        (q : List ℕ)
        → z.queue ≡ q
        → (z' : Zmq) × (ptr : ℕ) × ((oks : List Bool)
            → run_client (true ∷ oks) pload z ≡ run_client oks (some ptr) z')
          × Carries z' ps
          × (z'.printed ≡ z.printed ++ (p ∷ []))
          × Stale (some ptr) z'
    go [] at = absurd (subst (λ q. Holds z.heap q (p ∷ ps)) at c.holds)
    go (ptr ∷ queue) at =
        let (z', polled, carries, printed) = zmq_poller-Carries z p ps c in
        let (z1, prints, same) =
          bind-eq-done (print_payload ptr (record z { queue = queue })) _ (rw at at polled) in
        let prints' : print_payload ptr (record z { queue = queue }) ≡ done z' =
          prints ∙ ap done (ap (λ t. t.1) (done-injective same)) in
        (
          z',
          ptr,
          (λ oks. rw (at, prints') refl),
          carries,
          printed,
          print_payload-Stale ptr (record z { queue = queue }) prints',
        )

rounds :
    (pload : Option ℕ) (z : Zmq) (ps : List GrpcPayload)
    → Carries z ps
    → Stale pload z
    → (z' : Zmq) × (last : Option ℕ) × ((oks : List Bool)
        → run_client (replicate (length ps) true ++ oks) pload z ≡ run_client oks last z')
      × Carries z' []
      × (z'.printed ≡ z.printed ++ ps)
      × Stale last z'
      × (fault_of last ≡ fault_after pload ps)
rounds pload z [] c stale = (z, pload, (λ oks. refl), c, sym (append-nil z.printed), stale, refl)
rounds pload z (p ∷ ps) c stale =
    let (z1, ptr, one, c1, printed1, stale1) = round_polls pload z p ps c in
    let (z2, last, others, c2, printed2, stale2, same) = rounds (some ptr) z1 ps c1 stale1 in
    (
      z2,
      last,
      (λ oks. one (replicate (length ps) true ++ oks) ∙ others oks),
      c2,
      printed2 ∙ ap (λ xs. xs ++ ps) printed1 ∙ append_assoc z.printed (p ∷ []) ps,
      stale2,
      same ∙ after_some ptr ps,
    )
  where
    after_some : (i : ℕ) (qs : List GrpcPayload) → fault_after (some i) qs ≡ use_after_free
    after_some i [] = refl
    after_some i (_ ∷ _) = refl

-- From the start of the client, over a socket that carries some payloads: where as many calls of
-- zmq_recv succeed, the client prints the payloads in their order and frees each, and nothing that
-- was allocated is left. Where the next call then fails, the client goes on with the pointer that it
-- has: it uses the null pointer where there was no payload, and otherwise the payload that it has
-- just freed.
pub run_client-Carries :
    (z : Zmq) (ps : List GrpcPayload) (oks : List Bool)
    → Carries z ps
    → ((z' : Zmq) × (last : Option ℕ) × (run_client (replicate (length ps) true) none z
          ≡ done (last, z'))
        × Carries z' []
        × (z'.printed ≡ z.printed ++ ps))
      × (run_client (replicate (length ps) true ++ (false ∷ oks)) none z
          ≡ thrown (fault_after none ps))
unfolding run_client
run_client-Carries z ps oks c =
    let (z', last, run, carries, printed, stale, same) = rounds none z ps c tt in
    (
      (z', last, rw (append-nil (replicate (length ps) true)) at (run []), carries, printed),
      run (false ∷ oks) ∙ run_client_failed last z' oks stale ∙ ap thrown same,
    )
