-- ===== src/Bwu/Tcp.antt =====
-- bwu/tcp.rs: the sockets that the Wi-Fi LAN and the Wi-Fi hotspot handlers share. The operating
-- system's sockets are a parameter; its state goes through every call. An accept loop runs on its
-- own thread: the system keeps the loops that run, and `accept_loop` says what one of them does.
pub mod Address
pub mod AddressText
pub mod Listeners
pub mod Accept
pub mod Sample
mod Examples
use nearby_rs.Prelude.{
  ℕ, suc, Bool, true, false, not, Option, none, some, List, [], ◌∷◌, Bytes, Str, nat_eq,
  if◌then◌else◌, ◌>>=◌, ◌&&◌, is_some, unwrap_or,
}
use nearby_rs.Prelude.Map
use nearby_rs.Prelude.Map.{Map}
use nearby_rs.Mediums.{Medium}
use nearby_rs.Proto.Codec.{Codec}
use nearby_rs.Frames.Defs.{Exception, Result, ok, err}
use nearby_rs.Bwu.StreamChannel
use nearby_rs.Bwu.StreamChannel.{DuplexStream, Cipher, StreamChannel}
use nearby_rs.Bwu.Tcp.Address.{Ipv4Addr, SocketAddr}

-- `std::io::ErrorKind`, as far as the source tells them apart.
pub data ErrorKind : Type 0 where
  unexpected_eof other : ErrorKind

pub data IoResult (A : Type 0) : Type 0 where
  done : A → IoResult A
  failed : ErrorKind → IoResult A

-- `std::net`: the listeners, and a connected socket as the state of its one connection, which all
-- clones of the handle share. `none` of `read_exact` is a read that blocks; a call of which the
-- source only asks whether it failed returns a `Bool`.
pub record Sockets : Type 1 where
  pub Os : Type 0
  pub TcpListener : Type 0
  pub TcpStream : Type 0
  pub bind : Ipv4Addr → ℕ → Os → Option TcpListener × Os
  pub local_addr : TcpListener → Os → Option SocketAddr
  pub close_listener : TcpListener → Os → Os
  pub connect : SocketAddr → Os → Option TcpStream × Os
  pub try_clone : TcpStream → Bool × TcpStream
  pub read_exact : ℕ → TcpStream → Option (IoResult Bytes × TcpStream)
  pub write_all : Bytes → TcpStream → Bool × TcpStream
  pub flush : TcpStream → Bool × TcpStream
  pub shutdown : TcpStream → Bool × TcpStream

-- The reader, the writer and the handle for the shutdown are clones of one socket.
pub record TcpDuplexStream (s : Sockets) : Type 0 where
  pub socket : s.TcpStream

-- What the thread of an accept loop holds. `Sink` is the owner's callback.
pub record AcceptLoop (s : Sockets) (Sink : Type 0) : Type 0 where
  pub listener : s.TcpListener
  pub service_id : Str
  pub channel_name : Str
  pub medium : Medium
  pub sink : Sink
  pub stop : ℕ

-- The stop flag and the thread are references into the system.
pub record Listener : Type 0 where
  pub addr : SocketAddr
  pub stop : ℕ
  pub join : Option ℕ

-- The operating system, the stop flags and the threads that run.
pub record System (s : Sockets) (Sink : Type 0) : Type 0 where
  pub os : s.Os
  pub flags : Map ℕ Bool
  pub running : Map ℕ (AcceptLoop s Sink)
  pub next : ℕ

module _ (s : Sockets) where
  open s use {Os, TcpListener, TcpStream, bind, local_addr, close_listener, connect, try_clone}

  -- `TcpDuplexStream::new`
  unfoldable pub new_duplex : TcpStream → Option (TcpDuplexStream s)
  new_duplex stream =
      let (cloned, t) = try_clone stream in
      let (cloned_again, t') = try_clone t in
      if not cloned then none else if not cloned_again then none else some (record { socket = t' })

  abbrev io_read : IoResult Bytes → Result Bytes
  io_read (done bytes) = ok bytes
  io_read (failed unexpected_eof) = err Exception.no_data
  io_read (failed other) = err Exception.io

  unfoldable pub tcp_read_exact : ℕ → TcpDuplexStream s → Option (Result Bytes × TcpDuplexStream s)
  tcp_read_exact n t =
      s.read_exact n t.socket >>= λ (r, socket). some (io_read r, record { socket = socket })

  unfoldable pub tcp_write_all : Bytes → TcpDuplexStream s → Bool × TcpDuplexStream s
  tcp_write_all bytes t =
      let (written, socket) = s.write_all bytes t.socket in (written, record { socket = socket })

  unfoldable pub tcp_flush : TcpDuplexStream s → Bool × TcpDuplexStream s
  tcp_flush t = let (flushed, socket) = s.flush t.socket in (flushed, record { socket = socket })

  -- The result of the shutdown is ignored.
  unfoldable pub tcp_close : TcpDuplexStream s → TcpDuplexStream s
  tcp_close t = record { socket = (s.shutdown t.socket).1 }

  -- `impl DuplexStream for TcpDuplexStream`
  abbrev pub tcp_duplex : DuplexStream (TcpDuplexStream s)
  tcp_duplex = record {
    read_exact = tcp_read_exact;
    write_all = tcp_write_all;
    flush = tcp_flush;
    close = tcp_close;
  }

-- The call of the sink, if there is a channel.
abbrev pub sink_into : {A : Type 0} → Option A → List A → List A
sink_into none later = later
sink_into (some channel) later = channel ∷ later

module _ (s : Sockets) {Session : Type 0} (codec : Codec) (session : Cipher Session) where
  unfoldable pub tcp_channel :
      s.TcpStream → Str → Str → Medium → Option (StreamChannel (TcpDuplexStream s) Session)
  unfolding new_duplex StreamChannel.new
  tcp_channel stream service_id channel_name medium = new_duplex s stream >>= λ duplex.
      some (StreamChannel.new codec (tcp_duplex s) session service_id channel_name medium duplex)

  -- The loop on the connections that come in: each with the stop flag as the loop reads it, and a
  -- socket or an error. It gives the channels that the sink gets, and whether the loop has ended.
  unfoldable pub accept_loop :
      Str
      → Str
      → Medium
      → List (Bool × Option s.TcpStream)
      → List (StreamChannel (TcpDuplexStream s) Session) × Bool
  unfolding tcp_channel
  accept_loop service_id channel_name medium [] = ([], false)
  accept_loop service_id channel_name medium ((stop, incoming) ∷ rest) =
      let (later, ended) = accept_loop service_id channel_name medium rest in
      if stop then ([], true) else elim incoming [
        | none ↦ ([], true)
        | some stream ↦ (sink_into (tcp_channel stream service_id channel_name medium) later, ended)
      ]

module _ (s : Sockets) {Sink : Type 0} where
  -- A new stop flag, and a thread for the loop, which runs until it ends (`end_loop`).
  unfoldable pub spawn_accept_loop :
      s.TcpListener
      → SocketAddr
      → Str
      → Str
      → Medium
      → Sink
      → System s Sink
      → Listener × System s Sink
  spawn_accept_loop listener addr service_id channel_name medium sink y = (
    record { addr = addr; stop = y.next; join = some y.next },
    record y {
      flags = Map.insert y.next false y.flags;
      running =
          Map.insert y.next
            (record {
              listener = listener;
              service_id = service_id;
              channel_name = channel_name;
              medium = medium;
              sink = sink;
              stop = y.next;
            })
            y.running;
      next = suc y.next;
    },
  )

  unfoldable pub start_listener :
      Ipv4Addr → Str → Str → Medium → Sink → System s Sink → Option Listener × System s Sink
  unfolding spawn_accept_loop
  start_listener bind_ip service_id channel_name medium sink y =
      let (bound, os) = s.bind bind_ip 0 y.os in
      elim bound [
        | none ↦ (none, record y { os = os })
        | some listener ↦ elim (s.local_addr listener os) [
          | none ↦ (none, record y { os = s.close_listener listener os })
          | some addr ↦
              let (l, y') =
                spawn_accept_loop listener addr service_id channel_name medium sink
                  (record y { os = os }) in
              (some l, y')
        ]
      ]

  -- The thread of a loop ends and drops its listener. `accept_loop` does so at an error, and at the
  -- first connection that it takes after it is told to stop.
  unfoldable pub end_loop : ℕ → System s Sink → System s Sink
  end_loop j y = elim (Map.get j y.running) [
    | none ↦ y
    | some l ↦ record y { os = s.close_listener l.listener y.os; running = Map.remove j y.running }
  ]

  -- A thread that has ended is joined at once; one that runs ends if it has been told to stop and a
  -- connection has woken it. Otherwise the source waits for a next connection: the thread still runs.
  unfoldable pub join_loop : ℕ → Bool → System s Sink → System s Sink
  unfolding end_loop
  join_loop j woken y = elim (Map.get j y.running) [
    | none ↦ y
    | some l ↦ if woken && unwrap_or (Map.get l.stop y.flags) false then end_loop j y else y
  ]

  -- The flag is raised before the connection that wakes the loop, which is then joined.
  unfoldable pub stop_listener : Listener → System s Sink → System s Sink
  unfolding join_loop
  stop_listener l y =
      let (connected, os) = s.connect l.addr y.os in
      let y1 = record y { flags = Map.insert l.stop true y.flags; os = os } in
      elim l.join [ none ↦ y1 | some j ↦ join_loop j (is_some connected) y1 ]
