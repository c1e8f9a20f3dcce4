-- ===== src/Bwu/Tcp/Accept.antt =====
-- bwu/tcp.rs: what an accept loop gives to its sink.
use nearby_rs.Prelude.{
  ◌≡◌, refl, arith, Bool, true, false, ◌||◌, Option, some, List, [], ◌∷◌, ◌++◌, Str, map, is_none,
}
use nearby_rs.Mediums.{Medium}
use nearby_rs.Proto.Codec.{Codec}
use nearby_rs.Bwu.StreamChannel.{Cipher, StreamChannel}
use nearby_rs.Bwu.Tcp.{Sockets, TcpDuplexStream, tcp_channel, sink_into, accept_loop}

module _ (s : Sockets) {Session : Type 0} (codec : Codec) (session : Cipher Session)
    (service_id channel_name : Str) (medium : Medium) where
  -- The channels over the sockets, in order; a socket whose handle cannot be cloned is skipped.
  unfoldable pub channels : List s.TcpStream → List (StreamChannel (TcpDuplexStream s) Session)
  channels [] = []
  channels (t ∷ streams) =
      sink_into (tcp_channel s codec session t service_id channel_name medium) (channels streams)

  -- The sockets come in while the flag is down.
  abbrev pub incoming : List s.TcpStream → List (Bool × Option s.TcpStream)
  incoming = map (λ t. (false, some t))

  -- While the flag is down and sockets come in, the loop gives the sink a channel over each, in
  -- order, and goes on. It ends at the first error or the first connection that finds the flag
  -- raised: the sink gets neither that connection, such as the one that `stop_listener` makes, nor
  -- any that comes after it.
  pub accept_loop-incoming :
      (streams : List s.TcpStream) (stop : Bool) (last : Option s.TcpStream)
      (rest : List (Bool × Option s.TcpStream))
      → stop || is_none last ≡ true
      → (accept_loop s codec session service_id channel_name medium (incoming streams)
          ≡ (channels streams, false))
        × (accept_loop s codec session service_id channel_name medium
              (incoming streams ++ (stop, last) ∷ rest)
            ≡ (channels streams, true))
  unfolding accept_loop channels
  accept_loop-incoming [] true last rest h = (refl, refl)
  accept_loop-incoming [] false last rest h = ground (arith, h)
  accept_loop-incoming (t ∷ streams) stop last rest h =
      let (going, ended) = accept_loop-incoming streams stop last rest h in
      (rw going refl, rw ended refl)
