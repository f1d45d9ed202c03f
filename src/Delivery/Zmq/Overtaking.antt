-- ===== src/Delivery/Zmq/Overtaking.antt =====
-- The pointers of several sockets on their way to the poller: one may overtake the one before it.
use mathlib.Core.List.{Perm}
use mathlib.Core.List.Perm
use mdt_dialout_collector.Common.{
  ℕ, zero, suc, List, [], ◌∷◌, ◌≡◌, ◌≢◌, refl, sym, ◌∙◌, ap, length, All,
}
use mdt_dialout_collector.Delivery.Zmq.{GrpcPayload, Zmq}
use mdt_dialout_collector.Delivery.Zmq.Queue.{Heap, Holds, IsDistinct, Carries}

-- The elements with the one behind a place in front of the one at that place.
abbrev pub swap_at {ℓ} : {A : Type ℓ} → List A → ℕ → List A
swap_at [] n = []
swap_at (x ∷ []) n = x ∷ []
swap_at (x ∷ y ∷ xs) zero = y ∷ x ∷ xs
swap_at (x ∷ y ∷ xs) (suc n) = x ∷ swap_at (y ∷ xs) n

pub swap_at-Perm {ℓ} : {A : Type ℓ} → (xs : List A) (n : ℕ) → Perm (swap_at xs n) xs
swap_at-Perm [] n = Perm.refl []
swap_at-Perm (x ∷ []) n = Perm.refl (x ∷ [])
swap_at-Perm (x ∷ y ∷ xs) zero = Perm.swap x y xs
swap_at-Perm (x ∷ y ∷ xs) (suc n) = Perm.cons x (swap_at-Perm (y ∷ xs) n)

length-swap_at {ℓ} : {A : Type ℓ} → (xs : List A) (n : ℕ) → length (swap_at xs n) ≡ length xs
length-swap_at [] n = refl
length-swap_at (x ∷ []) n = refl
length-swap_at (x ∷ y ∷ xs) zero = refl
length-swap_at (x ∷ y ∷ xs) (suc n) = ap suc (length-swap_at (y ∷ xs) n)

All-swap_at : (P : ℕ → Type 0) (xs : List ℕ) (n : ℕ) → All P xs → All P (swap_at xs n)
All-swap_at P [] n h = h
All-swap_at P (x ∷ []) n h = h
All-swap_at P (x ∷ y ∷ xs) zero h = (h.1.0, (h.0, h.1.1))
All-swap_at P (x ∷ y ∷ xs) (suc n) h = (h.0, All-swap_at P (y ∷ xs) n h.1)

IsDistinct-swap_at : (ptrs : List ℕ) (n : ℕ) → IsDistinct ptrs → IsDistinct (swap_at ptrs n)
IsDistinct-swap_at [] n d = d
IsDistinct-swap_at (x ∷ []) n d = d
IsDistinct-swap_at (x ∷ y ∷ xs) zero d = (((λ e. d.0.0 (sym e)), d.1.0), (d.0.1, d.1.1))
IsDistinct-swap_at (x ∷ y ∷ xs) (suc n) d =
    (All-swap_at (λ q. x ≢ q) (y ∷ xs) n d.0, IsDistinct-swap_at (y ∷ xs) n d.1)

Holds-swap_at :
    (heap : Heap) (ptrs : List ℕ) (ps : List GrpcPayload) (n : ℕ)
    → Holds heap ptrs ps
    → Holds heap (swap_at ptrs n) (swap_at ps n)
Holds-swap_at heap [] [] n h = h
Holds-swap_at heap [] (p ∷ ps) n h = absurd h
Holds-swap_at heap (x ∷ xs) [] n h = absurd h
Holds-swap_at heap (x ∷ []) (p ∷ []) n h = h
Holds-swap_at heap (x ∷ []) (p ∷ q ∷ ps) n h = absurd h.1
Holds-swap_at heap (x ∷ y ∷ xs) (p ∷ []) n h = absurd h.1
Holds-swap_at heap (x ∷ y ∷ xs) (p ∷ q ∷ ps) zero h = (h.1.0, (h.0, h.1.1))
Holds-swap_at heap (x ∷ y ∷ xs) (p ∷ q ∷ ps) (suc n) h =
    (h.0, Holds-swap_at heap (y ∷ xs) (q ∷ ps) n h.1)

-- The socket still carries the same payloads, in another order.
pub swap_at-Carries :
    (z : Zmq) (ps : List GrpcPayload) (n : ℕ)
    → Carries z ps
    → Carries (record z { queue = swap_at z.queue n }) (swap_at ps n)
swap_at-Carries z ps n c = record {
  holds = Holds-swap_at z.heap z.queue ps n c.holds;
  distinct = IsDistinct-swap_at z.queue n c.distinct;
  no_leak = c.no_leak ∙ sym (length-swap_at z.queue n);
}
