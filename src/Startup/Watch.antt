-- ===== src/Startup/Watch.antt =====
-- The threads of the daemon that wait: the signal watcher of main, and ZmqSingleThreadPoller.
use mathlib.Core.List.{map, append_assoc, append-nil}
use mdt_dialout_collector.Common.{
  Bool, true, false, List, [], ◌∷◌, ◌++◌, ◌≡◌, refl, sym, ◌∙◌, ap, All, Partial, done, bind,
  bind-eq-done, done-injective, subst,
}
use mdt_dialout_collector.Config.Params.{Params}
use mdt_dialout_collector.Labels.{LabelMap}
use mdt_dialout_collector.Labels.Reload.{Csv, reload_label_maps}
use mdt_dialout_collector.Labels.Paired.{IsPaired, reload_label_maps-IsPaired}
use mdt_dialout_collector.Server.Registry.{Servers, initiate_shutdown}
use mdt_dialout_collector.Server.Registry.Shutdown.{IsThere, IsDown, initiate_shutdown-IsDown}
use mdt_dialout_collector.Delivery.Zmq.{
  GrpcPayload, Zmq, RecvOutcome, received, terminated, zmq_poller,
}
use mdt_dialout_collector.Delivery.Zmq.Queue.{Carries}
use mdt_dialout_collector.Delivery.Zmq.Refines.{zmq_poller-Carries}

-- What a `read` of the watcher gives: the byte of SIGUSR1, with the label files as they then are, or
-- of SIGTERM or SIGINT, or no byte.
pub data Signal : Type 0 where
  sigusr1 : Csv → Signal
  sigterm : Signal
  no_byte : Signal

-- What the watcher works on: the label map, the servers, and whether the ZMQ context has been shut
-- down.
pub record Watched : Type 0 where
  pub label_map : LabelMap
  pub servers : Servers
  pub zmq_down : Bool

module _ (cfg : Params) where
  -- the loop of the signal watcher, with whether it has returned; where the list ends it still waits
  unfoldable pub signal_watcher : List Signal → Watched → Partial (Bool × Watched)
  signal_watcher [] w = done (false, w)
  signal_watcher (sigusr1 files ∷ signals) w =
      bind (reload_label_maps files cfg w.label_map)
        λ m. signal_watcher signals (record w { label_map = m })
  signal_watcher (sigterm ∷ signals) w =
      bind (initiate_shutdown w.servers) λ s. done (true, record w { servers = s; zmq_down = true })
  signal_watcher (no_byte ∷ signals) w = done (true, w)

  -- The reloads one after the other.
  abbrev pub reload_all : List Csv → LabelMap → Partial LabelMap
  reload_all [] m = done m
  reload_all (files ∷ reloads) m = bind (reload_label_maps files cfg m) (reload_all reloads)

  reload_all-IsPaired :
      (reloads : List Csv) (m : LabelMap) {m' : LabelMap}
      → IsPaired m
      → reload_all reloads m ≡ done m'
      → IsPaired m'
  reload_all-IsPaired [] m paired h = subst IsPaired (done-injective h) paired
  reload_all-IsPaired (files ∷ reloads) m paired h =
      let (m1, one, rest) = bind-eq-done (reload_label_maps files cfg m) (reload_all reloads) h in
      reload_all-IsPaired reloads m1 (reload_label_maps-IsPaired files cfg m paired one) rest

  watcher_reloads :
      (reloads : List Csv) (signals : List Signal) (w : Watched) {m : LabelMap}
      → reload_all reloads w.label_map ≡ done m
      → signal_watcher (map sigusr1 reloads ++ signals) w
        ≡ signal_watcher signals (record w { label_map = m })
  unfolding signal_watcher
  watcher_reloads [] signals w h =
      ap (λ m. signal_watcher signals (record w { label_map = m })) (done-injective h)
  watcher_reloads (files ∷ reloads) signals w h =
      let (m1, one, rest) =
        bind-eq-done (reload_label_maps files cfg w.label_map) (reload_all reloads) h in
      rw one (watcher_reloads reloads signals (record w { label_map = m1 }) rest)

  -- After SIGUSR1 any number of times, where each reload completes, the first SIGTERM or SIGINT makes
  -- the watcher return, whatever has been sent behind it: then every registered server has been shut
  -- down, so has the ZMQ context, and the label map is that of the reloads, which gives two labels to
  -- each of its addresses where the map at the start did.
  pub signal_watcher-IsDown :
      (reloads : List Csv) (signals : List Signal) (w : Watched) {m : LabelMap}
      → reload_all reloads w.label_map ≡ done m
      → IsPaired w.label_map
      → All (IsThere w.servers) w.servers.active
      → (w' : Watched) × (signal_watcher (map sigusr1 reloads ++ (sigterm ∷ signals)) w
          ≡ done (true, w'))
        × All (IsDown w'.servers) w.servers.active
        × (w'.zmq_down ≡ true)
        × (w'.label_map ≡ m)
        × IsPaired w'.label_map
  unfolding signal_watcher
  signal_watcher-IsDown reloads signals w {m} h paired there =
      let (s, e, down, _, _) = initiate_shutdown-IsDown w.servers there in
      (
        record w { label_map = m; servers = s; zmq_down = true },
        watcher_reloads reloads (sigterm ∷ signals) w h ∙ rw e refl,
        down,
        refl,
        refl,
        reload_all-IsPaired reloads w.label_map paired h,
      )

-- ZmqSingleThreadPoller, over what its polls meet, with whether it has returned
unfoldable pub zmq_single_thread_poller : List RecvOutcome → Zmq → Partial (Bool × Zmq)
zmq_single_thread_poller [] z = done (false, z)
zmq_single_thread_poller (outcome ∷ outcomes) z = bind (zmq_poller outcome z) λ (goes_on, z').
    elim goes_on [ true ↦ zmq_single_thread_poller outcomes z' | false ↦ done (true, z') ]

-- The poller prints all payloads that the socket carries, in their order, and frees them, and ends
-- at the first poll that the end of the ZMQ context interrupts.
pub zmq_single_thread_poller-Carries :
    (ps : List GrpcPayload) (outcomes : List RecvOutcome) (z : Zmq)
    → Carries z ps
    → (z' : Zmq) × (zmq_single_thread_poller (map (λ _. received) ps ++ (terminated ∷ outcomes)) z
        ≡ done (true, z'))
      × Carries z' []
      × (z'.printed ≡ z.printed ++ ps)
unfolding zmq_single_thread_poller zmq_poller
zmq_single_thread_poller-Carries [] outcomes z c = (z, refl, c, sym (append-nil z.printed))
zmq_single_thread_poller-Carries (p ∷ ps) outcomes z c =
    let (z1, e1, c1, printed1) = zmq_poller-Carries z p ps c in
    let (z2, e2, c2, printed2) = zmq_single_thread_poller-Carries ps outcomes z1 c1 in
    (z2, rw e1 e2, c2, printed2 ∙ ap (λ xs. xs ++ ps) printed1 ∙ append_assoc z.printed (p ∷ []) ps)
