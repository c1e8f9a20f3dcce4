-- ===== src/Bwu/Tcp/Listeners.antt =====
-- bwu/tcp.rs: the listeners that a handler keeps for its services, against the accept loops that
-- run.
use nearby_rs.Prelude.{
  ℕ, ◌≤◌, ◌<◌, ◌&&◌, Bool, Bool-cases, is_some, unwrap_or, ◌≡◌, refl, sym, ◌∙◌, ◌⊎◌, arith,
  Option-cases, true, false, Option, none, some, Str, str_eq, nat_eq, str_beq, str_beq_iff,
  if◌then◌else◌, ◌>>=◌, inl, inr,
}
use nearby_rs.Prelude.Map
use nearby_rs.Prelude.Map.{Map, get-insert, get-remove}
use nearby_rs.Mediums.{Medium}
use nearby_rs.Bwu.Tcp.{
  Sockets, System, AcceptLoop, Listener, spawn_accept_loop, start_listener, end_loop, join_loop,
  stop_listener,
}
use nearby_rs.Bwu.Tcp.Address.{Ipv4Addr, SocketAddr}

-- Each service's listener has a stop flag of its own, which is not raised, and can be joined; and
-- every loop that runs reads its own flag, and has been told to stop or is that of its service's
-- listener.
pub record AreServed (s : Sockets) (Sink : Type 0) (listeners : Str → Option Listener)
    (y : System s Sink) : Type 0 where
  pub joinable : (id : Str) (l : Listener) → listeners id ≡ some l → l.join ≡ some l.stop
  pub below : (id : Str) (l : Listener) → listeners id ≡ some l → l.stop < y.next
  pub distinct :
      (id j : Str) (l l' : Listener)
      → listeners id ≡ some l
      → listeners j ≡ some l'
      → l.stop ≡ l'.stop
      → id ≡ j
  pub unstopped :
      (id : Str) (l : Listener) → listeners id ≡ some l → Map.get l.stop y.flags ≡ some false
  pub own_flag :
      (j : ℕ) (loop : AcceptLoop s Sink) → Map.get j y.running ≡ some loop → loop.stop ≡ j
  pub owned :
      (j : ℕ) (loop : AcceptLoop s Sink)
      → Map.get j y.running ≡ some loop
      → (Map.get j y.flags ≡ some true)
        ⊎ ((listeners loop.service_id >>= λ l. some l.stop) ≡ some j)
  pub fresh : (j : ℕ) → y.next ≤ j → Map.get j y.running ≡ none

-- What happens to a system between the calls: the operating system goes on, and a loop ends, on an
-- error of accept or as it was told.
pub data Outside (s : Sockets) (Sink : Type 0) (y : System s Sink) : System s Sink → Type 0 where
  os_goes_on : (os : s.Os) → Outside s Sink y (record y { os = os })
  loop_ends : (j : ℕ) → Outside s Sink y (end_loop s j y)

module _ (s : Sockets) {Sink : Type 0} where
  -- Only the services' answers and the loops matter.
  pub AreServed-ext :
      (f f' : Str → Option Listener) (y : System s Sink) (os : s.Os)
      → ((j : Str) → f' j ≡ f j)
      → AreServed s Sink f y
      → AreServed s Sink f' (record y { os = os })
  AreServed-ext f f' y os same h = record {
    joinable = λ j l q. h.joinable j l (sym (same j) ∙ q);
    below = λ j l q. h.below j l (sym (same j) ∙ q);
    distinct = λ j k l l' q r. h.distinct j k l l' (sym (same j) ∙ q) (sym (same k) ∙ r);
    unstopped = λ j l q. h.unstopped j l (sym (same j) ∙ q);
    own_flag = h.own_flag;
    owned = λ j loop q. ground (arith, same loop.service_id, h.owned j loop q);
    fresh = h.fresh;
  }

  abbrev new_loop : s.TcpListener → Str → Str → Medium → Sink → ℕ → AcceptLoop s Sink
  new_loop t id name m k stop = record {
    listener = t;
    service_id = id;
    channel_name = name;
    medium = m;
    sink = k;
    stop = stop;
  }

  spawn-AreServed :
      (f f' : Str → Option Listener) (y : System s Sink) (t : s.TcpListener) (addr : SocketAddr)
      (id name : Str) (m : Medium) (k : Sink)
      → f id ≡ none
      → AreServed s Sink f y
      → ((j : Str)
          → f' j
            ≡ (if str_beq id j then some (spawn_accept_loop s t addr id name m k y).0 else f j))
      → AreServed s Sink f' (spawn_accept_loop s t addr id name m k y).1
  unfolding spawn_accept_loop
  spawn-AreServed f f' y t addr id name m k e h change =
      let loop' = new_loop t id name m k y.next in
      record {
        joinable = λ j l q. ground (arith, change j, h.joinable j l);
        below = λ j l q. ground (arith, change j, h.below j l);
        distinct = λ j i l l' q r e. ground (
          arith,
          change j,
          change i,
          str_beq_iff id j,
          str_beq_iff id i,
          h.below j l,
          h.below i l',
          h.distinct j i l l',
        );
        unstopped = λ j l q.
            ground (
              arith,
              change j,
              h.below j l,
              h.unstopped j l,
              get-insert y.next l.stop false y.flags,
            );
        own_flag =
            λ j loop q. ground (arith, h.own_flag j loop, get-insert y.next j loop' y.running);
        owned = λ j loop q. ground (
          arith,
          change loop.service_id,
          str_beq_iff id loop.service_id,
          h.owned j loop,
          h.fresh j,
          get-insert y.next j loop' y.running,
          get-insert y.next j false y.flags,
        );
        fresh = λ j q. ground (arith, h.fresh j, get-insert y.next j loop' y.running);
      }

  -- A start fails and changes at most the operating system, or gives a new loop.
  start_listener-cases :
      (y : System s Sink) (bind_ip : Ipv4Addr) (id name : Str) (m : Medium) (k : Sink)
      → ((os : s.Os) × (start_listener s bind_ip id name m k y ≡ (none, record y { os = os })))
        ⊎ ((os : s.Os) × (t : s.TcpListener) × (addr : SocketAddr) × (start_listener s bind_ip id
                name m k y
              ≡ (let (l, y') = spawn_accept_loop s t addr id name m k (record y { os = os }) in
                  (some l, y'))))
  unfolding start_listener
  start_listener-cases y bind_ip id name m k =
      let (bound, os) = s.bind bind_ip 0 y.os in
      elim (Option-cases bound) [
        | inl n ↦ inl (os, rw (n, start_listener) refl)
        | inr (t, b) ↦ elim (Option-cases (s.local_addr t os)) [
          | inl n ↦ inl (s.close_listener t os, rw (b, n, start_listener) refl)
          | inr (addr, a) ↦ inr (os, t, addr, rw (b, a, start_listener) refl)
        ]
      ]

  -- A start, whether it succeeds or not, leaves every listener with its own loop, if the service
  -- had none.
  pub start_listener-AreServed :
      (f f' : Str → Option Listener) (y : System s Sink) (bind_ip : Ipv4Addr) (id name : Str)
      (m : Medium) (k : Sink)
      → f id ≡ none
      → AreServed s Sink f y
      → ((j : Str)
          → f' j ≡ (if str_beq id j then (start_listener s bind_ip id name m k y).0 else f j))
      → AreServed s Sink f' (start_listener s bind_ip id name m k y).1
  start_listener-AreServed f f' y bind_ip id name m k e h change =
      elim (start_listener-cases y bind_ip id name m k) [
        | inl (os, q) ↦
            rw q (AreServed-ext f f' y os (λ j. ground (arith, change j, q, str_beq_iff id j)) h)
        | inr (os, t, addr, q) ↦ rw q (
            spawn-AreServed f f' (record y { os = os }) t addr id name m k e
              (AreServed-ext f f y os (λ j. refl) h) (λ j. ground (arith, change j, q)))
      ]

  pub end_loop-AreServed :
      (f : Str → Option Listener) (y : System s Sink) (j : ℕ)
      → AreServed s Sink f y
      → AreServed s Sink f (end_loop s j y)
  unfolding end_loop
  end_loop-AreServed f y j h = elim (Option-cases (Map.get j y.running)) [
    | inl n ↦ rw (end_loop, n) h
    | inr (loop, n) ↦
        rw (end_loop, n)
          (record {
            joinable = h.joinable;
            below = h.below;
            distinct = h.distinct;
            unstopped = h.unstopped;
            own_flag = λ i l q. ground (arith, get-remove j i y.running, h.own_flag i l);
            owned = λ i l q. ground (arith, get-remove j i y.running, h.owned i l);
            fresh = λ i q. ground (arith, get-remove j i y.running, h.fresh i q);
          })
  ]

  pub Outside-AreServed :
      (f : Str → Option Listener) (y y' : System s Sink)
      → Outside s Sink y y'
      → AreServed s Sink f y
      → AreServed s Sink f y'
  Outside-AreServed f y _ (os_goes_on os) h = AreServed-ext f f y os (λ j. refl) h
  Outside-AreServed f y _ (loop_ends j) h = end_loop-AreServed f y j h

  -- The system in which a flag has been raised.
  abbrev told : ℕ → s.Os → System s Sink → System s Sink
  told stop os y = record y { os = os; flags = Map.insert stop true y.flags }

  told-AreServed :
      (f f' : Str → Option Listener) (y : System s Sink) (id : Str) (l : Listener) (os : s.Os)
      → f id ≡ some l
      → AreServed s Sink f y
      → ((j : Str) → f' j ≡ (if str_beq id j then none else f j))
      → AreServed s Sink f' (told l.stop os y)
  told-AreServed f f' y id l os e h change = record {
    joinable = λ j l' q. ground (arith, change j, h.joinable j l');
    below = λ j l' q. ground (arith, change j, h.below j l');
    distinct = λ j k l' l'' q r e. ground (arith, change j, change k, h.distinct j k l' l'');
    unstopped = λ j l' q. ground (
      arith,
      change j,
      str_beq_iff id j,
      h.distinct id j l l',
      h.unstopped j l',
      get-insert l.stop l'.stop true y.flags,
    );
    own_flag = h.own_flag;
    owned = λ j loop q. ground (
      arith,
      e,
      change loop.service_id,
      str_beq_iff id loop.service_id,
      h.owned j loop,
      get-insert l.stop j true y.flags,
    );
    fresh = h.fresh;
  }

  join_loop-AreServed :
      (f : Str → Option Listener) (y : System s Sink) (j : ℕ) (woken : Bool)
      → AreServed s Sink f y
      → AreServed s Sink f (join_loop s j woken y)
  unfolding join_loop
  join_loop-AreServed f y j woken h = elim (Option-cases (Map.get j y.running)) [
    | inl n ↦ rw (join_loop, n) h
    | inr (l, n) ↦ elim (Bool-cases (woken && unwrap_or (Map.get l.stop y.flags) false)) [
      | inl b ↦ rw (join_loop, n, b) (end_loop-AreServed f y j h)
      | inr b ↦ rw (join_loop, n, b) h
    ]
  ]

  -- A stop tells the loop of its listener to stop, and no other.
  pub stop_listener-AreServed :
      (f f' : Str → Option Listener) (y : System s Sink) (id : Str) (l : Listener)
      → f id ≡ some l
      → AreServed s Sink f y
      → ((j : Str) → f' j ≡ (if str_beq id j then none else f j))
      → AreServed s Sink f' (stop_listener s l y)
  unfolding stop_listener
  stop_listener-AreServed f f' y id l e h change =
      let (connected, os) = s.connect l.addr y.os in
      rw (stop_listener, h.joinable id l e)
        (join_loop-AreServed f' (told l.stop os y) l.stop (is_some connected)
          (told-AreServed f f' y id l os e h change))

  pub idle-AreServed :
      (f : Str → Option Listener) (y : System s Sink)
      → ((j : Str) → f j ≡ none)
      → ((j : ℕ) → Map.get j y.running ≡ none)
      → AreServed s Sink f y
  idle-AreServed f y empty idle = record {
    joinable = λ j l e. ground (arith, empty j);
    below = λ j l e. ground (arith, empty j);
    distinct = λ j k l l' e. ground (arith, empty j);
    unstopped = λ j l e. ground (arith, empty j);
    own_flag = λ j loop e. ground (arith, idle j);
    owned = λ j loop e. ground (arith, idle j);
    fresh = λ j e. idle j;
  }

  -- Where no service has a listener, every loop that still runs has been told to stop.
  pub all_told :
      (f : Str → Option Listener) (y : System s Sink)
      → AreServed s Sink f y
      → ((j : Str) → f j ≡ none)
      → (j : ℕ) (loop : AcceptLoop s Sink) → Map.get j y.running ≡ some loop
      → Map.get j y.flags ≡ some true
  all_told f y h empty j loop e = ground (arith, h.owned j loop e, empty loop.service_id)
