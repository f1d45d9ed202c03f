-- ===== src/Delivery/Zmq/Refines.antt =====
-- The pusher and the poller refine a queue of payloads.
use mdt_dialout_collector.Common.{
  ℕ, Bool, true, false, none, some, List, [], ◌∷◌, ◌++◌, ◌≡◌, refl, subst, ap, arith, length,
  length-append, get_elem?-append, set, count-append, count-set, if◌then◌else◌, done,
}
use mdt_dialout_collector.Delivery.Wrapper.{DataWrapper}
use mdt_dialout_collector.Delivery.Zmq.{
  GrpcPayload, Zmq, free_grpc_payload, payload_of, SendOutcome, sent, not_ready, send_error,
  zmq_pusher, received, zmq_poller,
}
use mdt_dialout_collector.Delivery.Zmq.Queue.{
  is_live, Holds, IsDistinct, Carries, Holds-below, Holds-push, Holds-dropped, Holds-freed,
  IsDistinct-push, set-append,
}

module _ (w : DataWrapper) (z : Zmq) {ps : List GrpcPayload} (c : Carries z ps) where
  pushed : Zmq
  pushed = record z {
    heap = z.heap ++ (some (payload_of w) ∷ []);
    queue = z.queue ++ (length z.heap ∷ []);
  }

  pushed-Carries : Carries pushed (ps ++ (payload_of w ∷ []))
  unfolding pushed
  pushed-Carries = record {
    holds = Holds-push z.heap z.queue ps (payload_of w) c.holds;
    distinct =
        IsDistinct-push (length z.heap) z.queue c.distinct (Holds-below z.heap z.queue ps c.holds);
    no_leak = omega (
      arith,
      count-append is_live z.heap (some (payload_of w) ∷ []),
      length-append z.queue (length z.heap ∷ []),
      c.no_leak,
    );
  }

  dropped : Zmq
  dropped = record z { heap = z.heap ++ (none ∷ []) }

  dropped-Carries : Carries dropped ps
  unfolding dropped
  dropped-Carries = record {
    holds = Holds-dropped z.heap z.queue ps none c.holds;
    distinct = c.distinct;
    no_leak = omega (arith, count-append is_live z.heap (none ∷ []), c.no_leak);
  }

  push_sent : zmq_pusher true sent w z ≡ done (true, pushed)
  unfolding zmq_pusher pushed
  push_sent = refl

  free_new :
      free_grpc_payload (length z.heap) (record z { heap = z.heap ++ (some (payload_of w) ∷ []) })
      ≡ done dropped
  unfolding free_grpc_payload dropped
  free_new =
      rw (get_elem?-append z.heap [] (some (payload_of w)), free_grpc_payload)
        (rw (set-append z.heap (some (payload_of w)) none))

  push_not_ready : zmq_pusher true not_ready w z ≡ done (false, dropped)
  unfolding zmq_pusher
  push_not_ready = rw free_new

  push_error : zmq_pusher true send_error w z ≡ done (false, dropped)
  unfolding zmq_pusher
  push_error = rw free_new

abbrev pub is_sent : SendOutcome → Bool
is_sent sent = true
is_sent _ = false

-- A push over a socket that carries some payloads: if the socket takes the message, it carries
-- the new payload behind them; if not, the payload is freed and it carries what it carried.
pub zmq_pusher-Carries :
    (outcome : SendOutcome) (w : DataWrapper) (z : Zmq) {ps : List GrpcPayload}
    → Carries z ps
    → (z' : Zmq) × (zmq_pusher true outcome w z ≡ done (is_sent outcome, z'))
      × Carries z' (if is_sent outcome then ps ++ (payload_of w ∷ []) else ps)
      × (z'.printed ≡ z.printed)
zmq_pusher-Carries sent w z c =
    (pushed w z c, push_sent w z c, pushed-Carries w z c, unfold pushed in refl)
zmq_pusher-Carries not_ready w z c =
    (dropped w z c, push_not_ready w z c, dropped-Carries w z c, unfold dropped in refl)
zmq_pusher-Carries send_error w z c =
    (dropped w z c, push_error w z c, dropped-Carries w z c, unfold dropped in refl)

module _ (ptr : ℕ) (queue : List ℕ) (z : Zmq) (p : GrpcPayload) (ps : List GrpcPayload)
    (at_head : z.queue ≡ ptr ∷ queue) (c : Carries z (p ∷ ps)) where
  popped : Zmq
  popped = record { heap = set z.heap ptr none; queue = queue; printed = z.printed ++ (p ∷ []) }

  head-Holds : Holds z.heap (ptr ∷ queue) (p ∷ ps)
  head-Holds = subst (λ q. Holds z.heap q (p ∷ ps)) at_head c.holds

  head-IsDistinct : IsDistinct (ptr ∷ queue)
  head-IsDistinct = subst IsDistinct at_head c.distinct

  popped-Carries : Carries popped ps
  unfolding popped
  popped-Carries = record {
    holds = Holds-freed z.heap queue ps ptr head-IsDistinct.0 head-Holds.1;
    distinct = head-IsDistinct.1;
    no_leak =
        omega (arith, count-set is_live z.heap ptr none head-Holds.0, c.no_leak, ap length at_head);
  }

  poll_head : zmq_poller received z ≡ done (true, popped)
  unfolding zmq_poller popped free_grpc_payload
  poll_head = ground (arith, head-Holds.0)

-- A poll over a socket that carries some payloads: it prints the first one and frees it, and the
-- socket carries the others. Over an empty socket it waits.
pub zmq_poller-Carries :
    (z : Zmq) (p : GrpcPayload) (ps : List GrpcPayload)
    → Carries z (p ∷ ps)
    → (z' : Zmq) × (zmq_poller received z ≡ done (true, z'))
      × Carries z' ps
      × (z'.printed ≡ z.printed ++ (p ∷ []))
zmq_poller-Carries z p ps c = go z.queue refl
  where
    go :
        (q : List ℕ)
        → z.queue ≡ q
        → (z' : Zmq) × (zmq_poller received z ≡ done (true, z'))
          × Carries z' ps
          × (z'.printed ≡ z.printed ++ (p ∷ []))
    go [] e = absurd (subst (λ q. Holds z.heap q (p ∷ ps)) e c.holds)
    go (ptr ∷ queue) e = (
      popped ptr queue z p ps e c,
      poll_head ptr queue z p ps e c,
      popped-Carries ptr queue z p ps e c,
      unfold popped in refl,
    )
