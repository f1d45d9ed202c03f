-- ===== src/Server/Handed.antt =====
-- What a vendor's handler hands to deliver_payload, apart from what becomes of it: the interface
-- that the four handlers meet.
pub mod Vendors
pub mod Numbered
pub mod Published
pub mod Streams
pub mod Pools
use mdt_dialout_collector.Common.{
  Bool, true, All, List, [], ◌∷◌, ◌++◌, ◌≡◌, refl, Partial, done, bind, Partial-cases, inl, inr,
}
use mdt_dialout_collector.Common.Text.{Bytes}
use mdt_dialout_collector.Json.{Jsoncpp}
use mdt_dialout_collector.Fsm.Serve.{handle_all}
use mdt_dialout_collector.Server.{Context, World, Moment, deliver_payload}

-- The arguments of one call of deliver_payload.
pub record Delivery : Type 0 where
  pub moment : Moment
  pub body : Bytes
  pub peer_ip : Bytes
  pub peer_port : Bytes

module _ (J : Jsoncpp) (ctx : Context) where
  abbrev pub deliver : Delivery → World → Partial World
  deliver d w = deliver_payload J ctx d.moment d.body d.peer_ip d.peer_port w

  -- The calls one after the other, until one throws.
  unfoldable pub deliver_all : List Delivery → World → Partial World
  deliver_all [] w = done w
  deliver_all (d ∷ ds) w = bind (deliver d w) (deliver_all ds)

  -- A handler that only delivers: what it hands on for a message that it can read, for which no call
  -- in front of the deliveries throws, depends on the message alone.
  pub record Hands (M : Type 0) : Type 0 where
    pub handler : M → World → Partial World
    pub handed : M → List Delivery
    pub readable : M → Bool
    pub handler_lem :
        (m : M) (w : World) → readable m ≡ true → handler m w ≡ deliver_all (handed m) w

  abbrev pub AllReadable : {M : Type 0} → Hands M → List M → Type 0
  AllReadable h ms = All (λ m. h.readable m ≡ true) ms

  -- All that is handed on for some messages, in order.
  abbrev pub all_handed : {M : Type 0} → Hands M → List M → List Delivery
  all_handed h [] = []
  all_handed h (m ∷ ms) = h.handed m ++ all_handed h ms

  pub deliver_all-append :
      (ds es : List Delivery) (w : World)
      → deliver_all (ds ++ es) w ≡ bind (deliver_all ds w) (deliver_all es)
  unfolding deliver_all
  deliver_all-append [] es w = refl
  deliver_all-append (d ∷ ds) es w = elim (Partial-cases (deliver d w)) [
    | inl (w', e) ↦ rw e (deliver_all-append ds es w')
    | inr (x, e) ↦ rw e refl
  ]

  -- Handling messages is delivering all that is handed on for them.
  pub handle_all-deliver_all :
      {M : Type 0} (h : Hands M) (ms : List M) (w : World)
      → AllReadable h ms
      → handle_all h.handler ms w ≡ deliver_all (all_handed h ms) w
  unfolding handle_all deliver_all
  handle_all-deliver_all h [] w _ = refl
  handle_all-deliver_all h (m ∷ ms) w (one, rest) =
      rw (h.handler_lem m w one, deliver_all-append (h.handed m) (all_handed h ms) w)
        (elim (Partial-cases (deliver_all (h.handed m) w)) [
          | inl (w', e) ↦ rw e (handle_all-deliver_all h ms w' rest)
          | inr (x, e) ↦ rw e refl
        ])
