-- ===== src/Bwu/Tcp/Sample.antt =====
-- Sockets that keep no more than the ports in use: the system of the examples.
use nearby_rs.Prelude.{ℕ, suc, true, none, some, List, [], ◌∷◌, ◌>>=◌, nat_eq, if◌then◌else◌}
use nearby_rs.Prelude.Set
use nearby_rs.Frames.Defs.{ok, err}
use nearby_rs.Bwu.StreamChannel.Pipe.{PipeState, new_pipe, pipe}
use nearby_rs.Bwu.Tcp.{Sockets, System, done, failed, unexpected_eof}

abbrev pub first_port : ℕ
first_port = 40_000

-- The next port, and the ports that are bound.
pub record Ports : Type 0 where
  pub next : ℕ
  pub bound : List ℕ

abbrev pub sample_sockets : Sockets
sample_sockets = record {
  Os = Ports;
  TcpListener = ℕ;
  TcpStream = PipeState;
  bind = λ ip _ os. (some os.next, record { next = suc os.next; bound = os.next ∷ os.bound });
  local_addr =
      λ port os. some (record { ip = record { a = 127; b = 0; c = 0; d = 1 }; port = port });
  close_listener = λ port os. record os { bound = Set.remove port os.bound };
  connect = λ addr os. (if Set.contains addr.port os.bound then some new_pipe else none, os);
  try_clone = λ t. (true, t);
  read_exact = λ n t. pipe.read_exact n t >>= λ (r, t').
      some (elim r [ ok bytes ↦ done bytes | err _ ↦ failed unexpected_eof ], t');
  write_all = pipe.write_all;
  flush = pipe.flush;
  shutdown = λ t. (true, pipe.close t);
}

abbrev pub sample_system : System sample_sockets ℕ
sample_system = record {
  os = record { next = first_port; bound = [] };
  flags = [];
  running = [];
  next = 0;
}
