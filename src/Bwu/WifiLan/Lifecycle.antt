-- ===== src/Bwu/WifiLan/Lifecycle.antt =====
-- bwu/wifi_lan.rs: the listeners over the life of a handler.
use nearby_rs.Prelude.{
  ◌≡◌, refl, arith, Option, none, List, [], ◌∷◌, Str, str_eq, str_beq, str_beq_iff, nat_eq, ℕ, any,
  if◌then◌else◌, Option-cases, inl, inr, some, true, subst, sym,
}
use nearby_rs.Prelude.Map
use nearby_rs.Prelude.Map.{get-insert, get-remove, get-keys}
use nearby_rs.Mediums.{Medium}
use nearby_rs.Proto.Codec.{Codec}
use nearby_rs.Proto.Upgrade.{UpgradePathInfo}
use nearby_rs.Bwu.Client.{ClientProxy}
use nearby_rs.Bwu.StreamChannel.{Cipher}
use nearby_rs.Bwu.Handler.Calls.{Reaches, Keeps, Reaches-keeps}
use nearby_rs.Bwu.Tcp.Address.{Ipv4Addr}
use nearby_rs.Bwu.Tcp.{Sockets, System, AcceptLoop, Listener, start_listener}
use nearby_rs.Bwu.Tcp.Listeners.{
  AreServed, AreServed-ext, start_listener-AreServed, stop_listener-AreServed, idle-AreServed,
  all_told, Outside, Outside-AreServed,
}
use nearby_rs.Bwu.WifiLan.{
  WifiLanBwuHandler, channel_name, with_endpoint, wifi_lan_handler, listener_addr,
  handle_initialize_upgraded_medium_for_endpoint, handle_revert_initiator_state_for_service,
  create_upgraded_endpoint_channel, dialled, revert_all, drop,
}

module _ (s : Sockets) {Sink : Type 0} where
  -- The listeners of the handler's services against the loops that run.
  abbrev pub IsServing : WifiLanBwuHandler s Sink → Type 0
  IsServing h = AreServed s Sink (λ id. Map.get id h.listeners) h.system

  -- Between the calls only the system goes on.
  abbrev pub SystemGoesOn : WifiLanBwuHandler s Sink → WifiLanBwuHandler s Sink → Type 0
  SystemGoesOn h h' =
      (y : System s Sink) × Outside s Sink h.system y × (h' ≡ record h { system = y })

  meanwhile-IsServing :
      (h h' : WifiLanBwuHandler s Sink) → SystemGoesOn h h' → IsServing h → IsServing h'
  meanwhile-IsServing h h' (y, o, e) k =
      subst IsServing (sym e) (Outside-AreServed s (λ j. Map.get j h.listeners) h.system y o k)

  listener_addr-start :
      (id : Str) (h : WifiLanBwuHandler s Sink)
      → Map.get id h.listeners ≡ none
      → IsServing h
      → IsServing (listener_addr s id h).1
  unfolding listener_addr
  listener_addr-start id h e k =
      let (started, system) =
        start_listener s h.bind_ip id channel_name Medium.wifi_lan h.sink h.system in
      let serving = λ (f' : Str → Option Listener).
        start_listener-AreServed s (λ j. Map.get j h.listeners) f' h.system h.bind_ip id
          channel_name Medium.wifi_lan h.sink e k in
      elim (Option-cases started) [
        | inl n ↦
            rw (e, n, listener_addr)
              (serving (λ j. Map.get j h.listeners) (λ j. ground (arith, e, n, str_beq_iff id j)))
        | inr (l, n) ↦
            rw (e, n, listener_addr)
              (serving (λ j. Map.get j (Map.insert id l h.listeners))
                (λ j. ground (arith, n, get-insert id j l h.listeners)))
      ]

  listener_addr-IsServing :
      (id : Str) (h : WifiLanBwuHandler s Sink) → IsServing h → IsServing (listener_addr s id h).1
  unfolding listener_addr
  listener_addr-IsServing id h k = elim (Option-cases (Map.get id h.listeners)) [
    | inr (l, e) ↦ rw (e, listener_addr) k
    | inl e ↦ listener_addr-start id h e k
  ]

  revert-IsServing :
      (id : Str) (h : WifiLanBwuHandler s Sink)
      → IsServing h
      → IsServing (handle_revert_initiator_state_for_service s id h)
  unfolding handle_revert_initiator_state_for_service
  revert-IsServing id h k = elim (Option-cases (Map.get id h.listeners)) [
    | inl e ↦ rw (e, handle_revert_initiator_state_for_service) k
    | inr (l, e) ↦
        rw (e, handle_revert_initiator_state_for_service)
          (stop_listener-AreServed s (λ j. Map.get j h.listeners) _ h.system id l e k
            (λ j. get-remove id j h.listeners))
  ]

  get-revert :
      (id j : Str) (h : WifiLanBwuHandler s Sink)
      → Map.get j (handle_revert_initiator_state_for_service s id h).listeners
        ≡ (if str_beq id j then none else Map.get j h.listeners)
  unfolding handle_revert_initiator_state_for_service
  get-revert id j h = elim (Option-cases (Map.get id h.listeners)) [
    | inl e ↦ ground (arith, e, str_beq_iff id j)
    | inr (l, e) ↦ ground (arith, e, get-remove id j h.listeners)
  ]

  revert_all-IsServing :
      (ids : List Str) (h : WifiLanBwuHandler s Sink) → IsServing h → IsServing (revert_all s ids h)
  unfolding revert_all
  revert_all-IsServing [] h k = k
  revert_all-IsServing (id ∷ ids) h k =
      revert_all-IsServing ids (handle_revert_initiator_state_for_service s id h)
        (revert-IsServing id h k)

  get-revert_all :
      (ids : List Str) (j : Str) (h : WifiLanBwuHandler s Sink)
      → Map.get j (revert_all s ids h).listeners
        ≡ (if any (λ id. str_beq id j) ids then none else Map.get j h.listeners)
  unfolding revert_all
  get-revert_all [] j h = refl
  get-revert_all (id ∷ ids) j h = ground (
    arith,
    get-revert_all ids j (handle_revert_initiator_state_for_service s id h),
    get-revert id j h,
  )

  get-drop : (j : Str) (h : WifiLanBwuHandler s Sink) → Map.get j (drop s h).listeners ≡ none
  unfolding drop
  get-drop j h = ground (arith, get-revert_all (Map.keys h.listeners) j h, get-keys j h.listeners)

  module _ {Session : Type 0} (codec : Codec) (session : Cipher Session) where
    create-IsServing :
        (client : ClientProxy) (id endpoint_id : Str) (info : UpgradePathInfo)
        (h : WifiLanBwuHandler s Sink)
        → IsServing h
        → IsServing
            (create_upgraded_endpoint_channel s codec session client id endpoint_id info h).1
    unfolding create_upgraded_endpoint_channel
    create-IsServing client id endpoint_id info h k = elim (Option-cases (dialled info)) [
      | inl e ↦ rw (e, create_upgraded_endpoint_channel) k
      | inr (addr, e) ↦
          rw (e, create_upgraded_endpoint_channel)
            (AreServed-ext s (λ j. Map.get j h.listeners) _ h.system _ (λ j. refl) k)
    ]

    wifi_lan-Keeps : Keeps (wifi_lan_handler s codec session) SystemGoesOn IsServing
    unfolding handle_initialize_upgraded_medium_for_endpoint
    wifi_lan-Keeps = record {
      on_meanwhile = meanwhile-IsServing;
      on_initialize = λ client id _ h k. listener_addr-IsServing id h k;
      on_revert = revert-IsServing;
      on_create = λ client id endpoint_id info h k. create-IsServing client id endpoint_id info h k;
      on_disconnect = λ client id h k. k;
    }

    -- In every state that a handler reaches by the calls of its trait, from the new one in a system
    -- where no accept loop runs, while the operating system goes on and loops end by themselves, each
    -- service's listener has a stop flag of its own that is not raised, and every loop that runs has
    -- been told to stop or is that of its service's listener; and when the handler is dropped there,
    -- every loop that still runs has been told to stop.
    pub running-drop :
        (sink : Sink) (bind_ip advertise_ip : Ipv4Addr) (system : System s Sink)
        (h : WifiLanBwuHandler s Sink)
        → ((j : ℕ) → Map.get j system.running ≡ none)
        → Reaches
            (wifi_lan_handler s codec session)
            SystemGoesOn
            (with_endpoint s sink bind_ip advertise_ip system)
            h
        → IsServing h
          × ((j : ℕ) (loop : AcceptLoop s Sink)
              → Map.get j (drop s h).system.running ≡ some loop
              → Map.get j (drop s h).system.flags ≡ some true)
    unfolding with_endpoint drop Map.get
    running-drop sink bind_ip advertise_ip system h idle r =
        let k : IsServing h =
          Reaches-keeps wifi_lan-Keeps (idle-AreServed s (λ j. none) system (λ j. refl) idle) r in
        (
          k,
          all_told s (λ j. Map.get j (drop s h).listeners) (drop s h).system
              (revert_all-IsServing (Map.keys h.listeners) h k) (λ j. get-drop j h),
        )
