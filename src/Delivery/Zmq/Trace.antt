-- ===== src/Delivery/Zmq/Trace.antt =====
-- Interleavings of the threads that push, each with a socket of its own, and of the poller.
use mathlib.Core.List.{append_assoc, append-nil, Perm}
use mathlib.Core.List.Perm
use mdt_dialout_collector.Common.{
  ℕ, true, List, [], ◌∷◌, ◌++◌, ◌≡◌, refl, sym, ◌∙◌, ap, subst, arith, if◌then◌else◌, Partial, done,
  bind,
}
use mdt_dialout_collector.Delivery.Wrapper.{DataWrapper}
use mdt_dialout_collector.Delivery.Zmq.{
  GrpcPayload, Zmq, payload_of, SendOutcome, sent, not_ready, send_error, zmq_pusher, received,
  zmq_poller,
}
use mdt_dialout_collector.Delivery.Zmq.Queue.{Holds, Carries}
use mdt_dialout_collector.Delivery.Zmq.Overtaking.{swap_at, swap_at-Perm, swap_at-Carries}
use mdt_dialout_collector.Delivery.Zmq.Refines.{is_sent, zmq_pusher-Carries, zmq_poller-Carries}

-- One turn of a thread that pushes, or of the thread that polls; or, between the sockets of two
-- threads, a pointer overtakes the one that is at a place in front of it.
pub data Action : Type 0 where
  push : SendOutcome → DataWrapper → Action
  overtake : ℕ → Action
  poll : Action

unfoldable pub act : Action → Zmq → Partial Zmq
unfolding zmq_poller
act (push outcome w) z = bind (zmq_pusher true outcome w z) λ (_, z'). done z'
act (overtake n) z = done (record z { queue = swap_at z.queue n })
act poll z = bind (zmq_poller received z) λ (_, z'). done z'

unfoldable pub run_actions : List Action → Zmq → Partial Zmq
unfolding act
run_actions [] z = done z
run_actions (a ∷ actions) z = bind (act a z) λ z'. run_actions actions z'

abbrev pub no_payloads : Zmq
no_payloads = record { heap = []; queue = []; printed = [] }

-- The payloads that the socket takes, in the order of the pushes.
abbrev pub taken : List Action → List GrpcPayload
taken [] = []
taken (push outcome w ∷ actions) =
    if is_sent outcome then payload_of w ∷ taken actions else taken actions
taken (overtake n ∷ actions) = taken actions
taken (poll ∷ actions) = taken actions

-- What an action leaves: all that was printed and is under way, with what the action adds.
abbrev Leaves : Action → Zmq → List GrpcPayload → Type 0
Leaves a z ps =
    (z' : Zmq) × (ps' : List GrpcPayload) × (act a z ≡ done z')
    × Carries z' ps'
    × Perm (z'.printed ++ ps') ((z.printed ++ ps) ++ taken (a ∷ []))

-- Equal lists hold the same.
same-Perm : {xs ys : List GrpcPayload} → xs ≡ ys → Perm xs ys
same-Perm {xs} e = subst (λ l. Perm xs l) e (Perm.refl xs)

push-Leaves :
    (outcome : SendOutcome) (w : DataWrapper) (z : Zmq) (ps : List GrpcPayload)
    → Carries z ps
    → Leaves (push outcome w) z ps
unfolding act
push-Leaves outcome w z ps c =
    let (z', moved, carries, same) = zmq_pusher-Carries outcome w z c in
    (
      z',
      (if is_sent outcome then ps ++ (payload_of w ∷ []) else ps),
      rw moved,
      carries,
      same-Perm (rw same (go outcome)),
    )
  where
    go :
        (o : SendOutcome)
        → z.printed ++ (if is_sent o then ps ++ (payload_of w ∷ []) else ps)
          ≡ (z.printed ++ ps) ++ (if is_sent o then payload_of w ∷ [] else [])
    go sent = sym (append_assoc z.printed ps (payload_of w ∷ []))
    go not_ready = sym (append-nil _)
    go send_error = sym (append-nil _)

poll_empty : (z : Zmq) → Carries z [] → act poll z ≡ done z
unfolding act
poll_empty z c = go z.queue refl
  where
    go : (q : _) → z.queue ≡ q → act poll z ≡ done z
    go [] e = ground arith
    go (ptr ∷ queue) e = absurd (subst (λ q. Holds z.heap q []) e c.holds)

poll-Leaves : (z : Zmq) (ps : List GrpcPayload) → Carries z ps → Leaves poll z ps
unfolding act
poll-Leaves z [] c = (z, [], poll_empty z c, c, same-Perm (sym (append-nil _)))
poll-Leaves z (p ∷ ps) c =
    let (z', moved, carries, printed) = zmq_poller-Carries z p ps c in
    (z', ps, rw moved, carries, same-Perm (rw printed (simp (append_assoc, append-nil))))

overtake-Leaves :
    (n : ℕ) (z : Zmq) (ps : List GrpcPayload) → Carries z ps → Leaves (overtake n) z ps
unfolding act
overtake-Leaves n z ps c = (
  record z { queue = swap_at z.queue n },
  swap_at ps n,
  refl,
  swap_at-Carries z ps n c,
  Perm.trans (Perm.append_left z.printed (swap_at-Perm ps n)) (same-Perm (sym (append-nil _))),
)

act-Leaves : (a : Action) (z : Zmq) (ps : List GrpcPayload) → Carries z ps → Leaves a z ps
act-Leaves (push outcome w) z ps c = push-Leaves outcome w z ps c
act-Leaves (overtake n) z ps c = overtake-Leaves n z ps c
act-Leaves poll z ps c = poll-Leaves z ps c

taken-cons :
    (a : Action) (actions : List Action) → taken (a ∷ []) ++ taken actions ≡ taken (a ∷ actions)
taken-cons (push sent w) actions = refl
taken-cons (push not_ready w) actions = refl
taken-cons (push send_error w) actions = refl
taken-cons (overtake n) actions = refl
taken-cons poll actions = refl

run_actions-Leaves :
    (actions : List Action) (z : Zmq) (ps : List GrpcPayload)
    → Carries z ps
    → (z' : Zmq) × (ps' : List GrpcPayload) × (run_actions actions z ≡ done z')
      × Carries z' ps'
      × Perm (z'.printed ++ ps') ((z.printed ++ ps) ++ taken actions)
unfolding run_actions
run_actions-Leaves [] z ps c = (z, ps, refl, c, same-Perm (sym (append-nil _)))
run_actions-Leaves (a ∷ actions) z ps c =
    let (z1, ps1, moved, c1, sum1) = act-Leaves a z ps c in
    let (z2, ps2, rest, c2, sum2) = run_actions-Leaves actions z1 ps1 c1 in
    (
      z2,
      ps2,
      rw moved rest,
      c2,
      Perm.trans sum2 (
          Perm.trans (Perm.append_right (taken actions) sum1) (
            same-Perm (
              append_assoc (z.printed ++ ps) (taken (a ∷ [])) (taken actions)
              ∙ ap (λ t. (z.printed ++ ps) ++ t) (taken-cons a actions)))),
    )

-- Whatever the order in which the threads push and the poller polls, whatever their sockets take or
-- refuse, and whichever pointers overtake others on their way, from empty sockets: no pointer is used
-- after its payload was freed, the payloads that are allocated are those under way, and what the
-- poller has printed is, with what is under way, what the sockets took, each payload as often as it
-- was taken, in some order.
pub run_actions-taken :
    (actions : List Action)
    → (z : Zmq) × (ps : List GrpcPayload) × (run_actions actions no_payloads ≡ done z)
      × Carries z ps
      × Perm (z.printed ++ ps) (taken actions)
run_actions-taken actions =
    run_actions-Leaves actions no_payloads [] (record { holds = tt; distinct = tt; no_leak = refl })
