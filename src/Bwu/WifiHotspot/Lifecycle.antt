-- ===== src/Bwu/WifiHotspot/Lifecycle.antt =====
-- bwu/wifi_hotspot.rs: the access points and the listeners over the life of a handler.
use nearby_rs.Prelude.{
  ◌≡◌, refl, arith, Bool, true, false, ◌||◌, Option, none, some, List, [], ◌∷◌, Str, str_eq,
  str_beq, str_beq_iff, nat_eq, ℕ, is_some, any, if◌then◌else◌, Option-cases, Bool-cases, inl, inr,
  subst, sym, ◌>>=◌,
}
use nearby_rs.Prelude.Map
use nearby_rs.Prelude.Set
use nearby_rs.Prelude.Map.{get-insert, get-remove, get-keys}
use nearby_rs.Mediums.{Medium}
use nearby_rs.Proto.Codec.{Codec}
use nearby_rs.Proto.Upgrade.{UpgradePathInfo}
use nearby_rs.Bwu.Client.{ClientProxy}
use nearby_rs.Bwu.StreamChannel.{Cipher}
use nearby_rs.Bwu.Handler.Calls.{Reaches, Keeps, Reaches-keeps}
use nearby_rs.Bwu.Tcp.Address.{SocketAddr}
use nearby_rs.Bwu.Tcp.{Sockets, System, AcceptLoop, Listener, start_listener}
use nearby_rs.Bwu.Tcp.Listeners.{
  AreServed, AreServed-ext, start_listener-AreServed, stop_listener-AreServed, idle-AreServed,
  all_told, Outside, Outside-AreServed,
}
use nearby_rs.Bwu.WifiHotspot.{
  SoftAp, HotspotCreds, HotspotListener, WifiHotspotBwuHandler, channel_name, new,
  wifi_hotspot_handler, listen_on, standing, handle_initialize_upgraded_medium_for_endpoint,
  handle_revert_initiator_state_for_service, create_upgraded_endpoint_channel, dial, joined,
  on_endpoint_disconnect, revert_all, drop,
}

-- The access points that a handler has asked for: a start that gives credentials brings the
-- service's access point up, a stop tears it down, and nothing else does either.
pub record Tracks {Ap : Type 0} (ap : SoftAp Ap) (is_up : Str → Ap → Bool) : Type 0 where
  pub up-start :
      (id j : Str) (a : Ap)
      → is_up j (ap.start id a).1
        ≡ (if str_beq id j then is_some (ap.start id a).0 || is_up j a else is_up j a)
  pub up-stop :
      (id j : Str) (a : Ap) → is_up j (ap.stop id a) ≡ (if str_beq id j then false else is_up j a)
  pub up-connect_as_sta :
      (creds : HotspotCreds) (j : Str) (a : Ap) → is_up j (ap.connect_as_sta creds a).1 ≡ is_up j a
  pub up-disconnect_sta : (j : Str) (a : Ap) → is_up j (ap.disconnect_sta a) ≡ is_up j a

-- Any platform, with a record of its calls: the services that have been started since their last
-- stop.
abbrev pub recorded : {Ap : Type 0} → SoftAp Ap → SoftAp (Ap × List Str)
recorded ap = record {
  start = λ id (a, up).
      let (creds, a') = ap.start id a in
      (creds, (a', if is_some creds then Set.insert id up else up));
  connect_as_sta =
      λ creds (a, up). let (joined, a') = ap.connect_as_sta creds a in (joined, (a', up));
  stop = λ id (a, up). (ap.stop id a, Set.remove id up);
  disconnect_sta = λ (a, up). (ap.disconnect_sta a, up);
  is_connected_to_hotspot = λ (a, up). ap.is_connected_to_hotspot a;
}

abbrev pub is_started : {Ap : Type 0} → Str → Ap × List Str → Bool
is_started id (a, up) = Set.contains id up

pub recorded-Tracks : {Ap : Type 0} (ap : SoftAp Ap) → Tracks (recorded ap) is_started
recorded-Tracks ap = record {
  up-start = λ id j (a, up). ground (arith, Set.contains-insert id j up);
  up-stop = λ id j (a, up). Set.contains-remove id j up;
  up-connect_as_sta = λ creds j (a, up). refl;
  up-disconnect_sta = λ j (a, up). refl;
}

module _ (s : Sockets) {Sink Ap : Type 0} (ap : SoftAp Ap) (is_up : Str → Ap → Bool)
    (laws : Tracks ap is_up) where
  abbrev listener_of : WifiHotspotBwuHandler s Sink Ap → Str → Option Listener
  listener_of h id = Map.get id h.listeners >>= λ hl. some hl.listener

  -- The listeners of the handler's services against the loops that run, and the access points that
  -- are up, which are those of the services with a listener.
  pub record IsServing (h : WifiHotspotBwuHandler s Sink Ap) : Type 0 where
    pub loops : AreServed s Sink (listener_of h) h.system
    pub up : (id : Str) → is_up id h.softap ≡ Map.contains_key id h.listeners

  -- Between the calls only the system goes on.
  abbrev pub SystemGoesOn :
      WifiHotspotBwuHandler s Sink Ap → WifiHotspotBwuHandler s Sink Ap → Type 0
  SystemGoesOn h h' =
      (y : System s Sink) × Outside s Sink h.system y × (h' ≡ record h { system = y })

  meanwhile-IsServing :
      (h h' : WifiHotspotBwuHandler s Sink Ap) → SystemGoesOn h h' → IsServing h → IsServing h'
  meanwhile-IsServing h h' (y, o, e) k =
      subst IsServing (sym e)
        (record { loops = Outside-AreServed s (listener_of h) h.system y o k.loops; up = k.up })

  listen_on-IsServing :
      (id : Str) (creds : HotspotCreds) (h : WifiHotspotBwuHandler s Sink Ap)
      → Map.get id h.listeners ≡ none
      → AreServed s Sink (listener_of h) h.system
      → ((j : Str)
          → is_up j h.softap ≡ (if str_beq id j then true else Map.contains_key j h.listeners))
      → IsServing (listen_on s ap id creds h).1
  unfolding listen_on
  listen_on-IsServing id creds h e k up =
      let (started, system) =
        start_listener s creds.bind_ip id channel_name Medium.wifi_hotspot h.sink h.system in
      let serving = λ (f' : Str → Option Listener).
        start_listener-AreServed s (listener_of h) f' h.system creds.bind_ip id channel_name
          Medium.wifi_hotspot h.sink (ground (arith, e)) k in
      elim (Option-cases started) [
        | inl n ↦
            rw (n, listen_on)
              (record {
                loops = serving (listener_of h) (λ j. ground (arith, e, n, str_beq_iff id j));
                up = λ j. ground (arith, e, up j, laws.up-stop id j h.softap, str_beq_iff id j);
              })
        | inr (l, n) ↦
            let hl : HotspotListener = record { listener = l; creds = creds } in
            rw (n, listen_on)
              (record {
                loops =
                    serving
                      (λ j. Map.get j (Map.insert id hl h.listeners) >>= λ hl. some hl.listener)
                      (λ j. ground (arith, n, get-insert id j hl h.listeners));
                up = λ j. ground (arith, up j, get-insert id j hl h.listeners);
              })
      ]

  standing-IsServing :
      (id : Str) (h : WifiHotspotBwuHandler s Sink Ap)
      → IsServing h
      → IsServing (standing s ap id h).1
  unfolding standing
  standing-IsServing id h k = elim (Option-cases (Map.get id h.listeners)) [
    | inr (hl, e) ↦ rw (e, standing) k
    | inl e ↦ elim (Option-cases (ap.start id h.softap).0) [
      | inl n ↦
          rw (e, n, standing)
            (record {
              loops = k.loops;
              up = λ j. ground (arith, n, k.up j, laws.up-start id j h.softap);
            })
      | inr (creds, n) ↦
          rw (e, n, standing)
            (listen_on-IsServing id creds (record h { softap = (ap.start id h.softap).1 }) e k.loops
              (λ j. ground (arith, n, k.up j, laws.up-start id j h.softap)))
    ]
  ]

  revert-IsServing :
      (id : Str) (h : WifiHotspotBwuHandler s Sink Ap)
      → IsServing h
      → IsServing (handle_revert_initiator_state_for_service s ap id h)
  unfolding handle_revert_initiator_state_for_service
  revert-IsServing id h k = elim (Option-cases (Map.get id h.listeners)) [
    | inl e ↦ rw (e, handle_revert_initiator_state_for_service) k
    | inr (hl, e) ↦
        rw (e, handle_revert_initiator_state_for_service)
          (record {
            loops =
                stop_listener-AreServed s (listener_of h)
                  (λ j. Map.get j (Map.remove id h.listeners) >>= λ hl. some hl.listener) h.system
                  id hl.listener (ground (arith, e)) k.loops
                  (λ j. ground (arith, get-remove id j h.listeners));
            up = λ j.
                ground (arith, k.up j, laws.up-stop id j h.softap, get-remove id j h.listeners);
          })
  ]

  get-revert :
      (id j : Str) (h : WifiHotspotBwuHandler s Sink Ap)
      → Map.get j (handle_revert_initiator_state_for_service s ap id h).listeners
        ≡ (if str_beq id j then none else Map.get j h.listeners)
  unfolding handle_revert_initiator_state_for_service
  get-revert id j h = elim (Option-cases (Map.get id h.listeners)) [
    | inl e ↦ ground (arith, e, str_beq_iff id j)
    | inr (hl, e) ↦ ground (arith, e, get-remove id j h.listeners)
  ]

  revert_all-IsServing :
      (ids : List Str) (h : WifiHotspotBwuHandler s Sink Ap)
      → IsServing h
      → IsServing (revert_all s ap ids h)
  unfolding revert_all
  revert_all-IsServing [] h k = k
  revert_all-IsServing (id ∷ ids) h k =
      revert_all-IsServing ids (handle_revert_initiator_state_for_service s ap id h)
        (revert-IsServing id h k)

  get-revert_all :
      (ids : List Str) (j : Str) (h : WifiHotspotBwuHandler s Sink Ap)
      → Map.get j (revert_all s ap ids h).listeners
        ≡ (if any (λ id. str_beq id j) ids then none else Map.get j h.listeners)
  unfolding revert_all
  get-revert_all [] j h = refl
  get-revert_all (id ∷ ids) j h = ground (
    arith,
    get-revert_all ids j (handle_revert_initiator_state_for_service s ap id h),
    get-revert id j h,
  )

  get-drop :
      (j : Str) (h : WifiHotspotBwuHandler s Sink Ap) → Map.get j (drop s ap h).listeners ≡ none
  unfolding drop
  get-drop j h = ground (arith, get-revert_all (Map.keys h.listeners) j h, get-keys j h.listeners)

  module _ {Session : Type 0} (codec : Codec) (session : Cipher Session) where
    dial-IsServing :
        (id : Str) (addr : SocketAddr) (h : WifiHotspotBwuHandler s Sink Ap)
        → IsServing h
        → IsServing (dial s ap codec session id addr h).1
    unfolding dial
    dial-IsServing id addr h k = record {
      loops = AreServed-ext s (listener_of h) _ h.system _ (λ j. refl) k.loops;
      up = k.up;
    }

    create-IsServing :
        (client : ClientProxy) (id endpoint_id : Str) (info : UpgradePathInfo)
        (h : WifiHotspotBwuHandler s Sink Ap)
        → IsServing h
        → IsServing
            (create_upgraded_endpoint_channel s ap codec session client id endpoint_id info h).1
    unfolding create_upgraded_endpoint_channel
    create-IsServing client id endpoint_id info h k = elim (Option-cases (joined info)) [
      | inl e ↦ rw (e, create_upgraded_endpoint_channel) k
      | inr ((creds, port), e) ↦
          let k' : IsServing (record h { softap = (ap.connect_as_sta creds h.softap).1 }) = record {
            loops = k.loops;
            up = λ j. ground (arith, k.up j, laws.up-connect_as_sta creds j h.softap);
          } in
          elim (Bool-cases (ap.connect_as_sta creds h.softap).0) [
            | inl c ↦ rw (e, c, create_upgraded_endpoint_channel) (dial-IsServing id _ _ k')
            | inr c ↦ rw (e, c, create_upgraded_endpoint_channel) k'
          ]
    ]

    wifi_hotspot-Keeps : Keeps (wifi_hotspot_handler s ap codec session) SystemGoesOn IsServing
    unfolding handle_initialize_upgraded_medium_for_endpoint on_endpoint_disconnect
    wifi_hotspot-Keeps = record {
      on_meanwhile = meanwhile-IsServing;
      on_initialize = λ client id _ h k. standing-IsServing id h k;
      on_revert = revert-IsServing;
      on_create = λ client id endpoint_id info h k. create-IsServing client id endpoint_id info h k;
      on_disconnect = λ client id h k. record {
        loops = k.loops;
        up = λ j. ground (arith, k.up j, laws.up-disconnect_sta j h.softap);
      };
    }

    IsServing-drop :
        (h₀ h : WifiHotspotBwuHandler s Sink Ap)
        → IsServing h₀
        → Reaches (wifi_hotspot_handler s ap codec session) SystemGoesOn h₀ h
        → IsServing h
          × ((j : ℕ) (loop : AcceptLoop s Sink)
              → Map.get j (drop s ap h).system.running ≡ some loop
              → Map.get j (drop s ap h).system.flags ≡ some true)
          × ((id : Str) → is_up id (drop s ap h).softap ≡ false)
    unfolding drop
    IsServing-drop h₀ h k₀ r =
        let k : IsServing h = Reaches-keeps wifi_hotspot-Keeps k₀ r in
        let k' : IsServing (drop s ap h) = revert_all-IsServing (Map.keys h.listeners) h k in
        (
          k,
          all_told s (listener_of (drop s ap h)) (drop s ap h).system k'.loops
              (λ j. ground (arith, get-drop j h)),
          λ id. ground (arith, k'.up id, get-drop id h),
        )

module _ (s : Sockets) {Sink Ap Session : Type 0} (softap : SoftAp Ap) (codec : Codec)
    (session : Cipher Session) where
  -- In every state that a handler reaches by the calls of its trait, from the new one in a system
  -- where no accept loop runs, while the operating system goes on and loops end by themselves, over
  -- any platform, the services whose access point has been started since its last stop are those
  -- with a listener: a start that then finds no listener is undone. Each listener has a stop flag of
  -- its own that is not raised, and every loop that runs has been told to stop or is that of its
  -- service's listener. When the handler is dropped there, every access point that was started has
  -- been stopped, and every loop that still runs has been told to stop.
  pub up-drop :
      (a : Ap) (sink : Sink) (system : System s Sink)
      (h : WifiHotspotBwuHandler s Sink (Ap × List Str))
      → ((j : ℕ) → Map.get j system.running ≡ none)
      → Reaches
          (wifi_hotspot_handler s (recorded softap) codec session)
          (SystemGoesOn s (recorded softap) is_started (recorded-Tracks softap))
          (new s (recorded softap) (a, []) sink system)
          h
      → IsServing s (recorded softap) is_started (recorded-Tracks softap) h
        × ((j : ℕ) (loop : AcceptLoop s Sink)
            → Map.get j (drop s (recorded softap) h).system.running ≡ some loop
            → Map.get j (drop s (recorded softap) h).system.flags ≡ some true)
        × ((id : Str) → is_started id (drop s (recorded softap) h).softap ≡ false)
  unfolding new Map.get Set.contains
  up-drop a sink system h idle r =
      IsServing-drop s (recorded softap) is_started (recorded-Tracks softap) codec session
        (new s (recorded softap) (a, []) sink system) h
        (record { loops = idle-AreServed s (λ j. none) system (λ j. refl) idle; up = λ id. refl }) r
