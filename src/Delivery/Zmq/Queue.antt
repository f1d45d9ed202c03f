-- ===== src/Delivery/Zmq/Queue.antt =====
-- The socket as a queue of payloads: what the poller prints is what the pusher was given, and each
-- payload is freed once.
use mdt_dialout_collector.Common.{
  ℕ, ◌<◌, Bool, true, false, Option, none, some, List, [], ◌∷◌, ◌++◌, ◌≡◌, ◌≢◌, refl, ◌∙◌, ap,
  arith, length, get_elem?, get_elem?-append, get_elem?-append_left, get_elem?-set_ne, get_elem?-lt,
  set, count, All, All-append,
}
use mdt_dialout_collector.Delivery.Zmq.{GrpcPayload, Zmq}

abbrev pub Heap : Type 0
Heap = List (Option GrpcPayload)

abbrev pub is_live : Option GrpcPayload → Bool
is_live none = false
is_live (some _) = true

-- The pointers stand for these payloads, one after the other.
abbrev pub Holds : Heap → List ℕ → List GrpcPayload → Type 0
Holds heap [] [] = Unit
Holds heap [] (_ ∷ _) = ⊥
Holds heap (_ ∷ _) [] = ⊥
Holds heap (ptr ∷ ptrs) (p ∷ ps) = (get_elem? heap ptr ≡ some (some p)) × Holds heap ptrs ps

abbrev pub IsDistinct : List ℕ → Type 0
IsDistinct [] = Unit
IsDistinct (p ∷ ps) = All (λ q. p ≢ q) ps × IsDistinct ps

-- The socket carries these payloads, in this order: each by a pointer of its own, and no other
-- payload is allocated.
pub record Carries (z : Zmq) (ps : List GrpcPayload) : Type 0 where
  pub holds : Holds z.heap z.queue ps
  pub distinct : IsDistinct z.queue
  pub no_leak : count is_live z.heap ≡ length z.queue

pub Holds-below :
    (heap : Heap) (ptrs : List ℕ) (ps : List GrpcPayload)
    → Holds heap ptrs ps
    → All (λ ptr. ptr < length heap) ptrs
Holds-below heap [] ps h = tt
Holds-below heap (ptr ∷ ptrs) [] h = absurd h
Holds-below heap (ptr ∷ ptrs) (p ∷ ps) h = (get_elem?-lt heap ptr h.0, Holds-below heap ptrs ps h.1)

-- A new payload at the end of the heap and of the queue.
pub Holds-push :
    (heap : Heap) (ptrs : List ℕ) (ps : List GrpcPayload) (p : GrpcPayload)
    → Holds heap ptrs ps
    → Holds (heap ++ (some p ∷ [])) (ptrs ++ (length heap ∷ [])) (ps ++ (p ∷ []))
Holds-push heap [] [] p h = (get_elem?-append heap [] (some p), tt)
Holds-push heap [] (_ ∷ _) p h = absurd h
Holds-push heap (_ ∷ _) [] p h = absurd h
Holds-push heap (ptr ∷ ptrs) (q ∷ ps) p h = (
  get_elem?-append_left heap (some p ∷ []) ptr (get_elem?-lt heap ptr h.0) ∙ h.0,
  Holds-push heap ptrs ps p h.1,
)

-- A payload that is allocated and freed again.
pub Holds-dropped :
    (heap : Heap) (ptrs : List ℕ) (ps : List GrpcPayload) (o : Option GrpcPayload)
    → Holds heap ptrs ps
    → Holds (heap ++ (o ∷ [])) ptrs ps
Holds-dropped heap [] ps o h = ground arith
Holds-dropped heap (ptr ∷ ptrs) [] o h = absurd h
Holds-dropped heap (ptr ∷ ptrs) (q ∷ ps) o h = (
  get_elem?-append_left heap (o ∷ []) ptr (get_elem?-lt heap ptr h.0) ∙ h.0,
  Holds-dropped heap ptrs ps o h.1,
)

-- A payload that no pointer of the queue stands for is freed.
pub Holds-freed :
    (heap : Heap) (ptrs : List ℕ) (ps : List GrpcPayload) (ptr : ℕ)
    → All (λ q. ptr ≢ q) ptrs
    → Holds heap ptrs ps
    → Holds (set heap ptr none) ptrs ps
Holds-freed heap [] ps ptr d h = ground arith
Holds-freed heap (q ∷ ptrs) [] ptr d h = absurd h
Holds-freed heap (q ∷ ptrs) (p ∷ ps) ptr d h =
    (get_elem?-set_ne heap ptr q none d.0 ∙ h.0, Holds-freed heap ptrs ps ptr d.1 h.1)

All-ne-push :
    (p n : ℕ) (ptrs : List ℕ) → All (λ q. p ≢ q) ptrs → p < n → All (λ q. p ≢ q) (ptrs ++ (n ∷ []))
All-ne-push p n ptrs d h = All-append (λ q. p ≢ q) ptrs (n ∷ []) d ((omega arith), tt)

pub IsDistinct-push :
    (n : ℕ) (ptrs : List ℕ)
    → IsDistinct ptrs
    → All (λ ptr. ptr < n) ptrs
    → IsDistinct (ptrs ++ (n ∷ []))
IsDistinct-push n [] d h = (tt, tt)
IsDistinct-push n (p ∷ ptrs) d h = (All-ne-push p n ptrs d.0 h.0, IsDistinct-push n ptrs d.1 h.1)

pub set-append :
    (heap : Heap) (o v : Option GrpcPayload)
    → set (heap ++ (o ∷ [])) (length heap) v ≡ heap ++ (v ∷ [])
set-append [] o v = refl
set-append (x ∷ heap) o v = ap (◌∷◌ x) (set-append heap o v)
