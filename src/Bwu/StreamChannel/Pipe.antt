-- ===== src/Bwu/StreamChannel/Pipe.antt =====
-- bwu/stream_channel.rs: `Pipe`, the in-memory stream.
use nearby_rs.Prelude.{
  ℕ, Bool, true, false, Option, none, some, [], ◌++◌, Bytes, if◌then◌else◌, leb, length, take, drop,
}
use nearby_rs.Bwu.StreamChannel.{DuplexStream}
use nearby_rs.Frames.Defs.{Exception, Result, ok, err}

pub record PipeState : Type 0 where
  pub buf : Bytes
  pub closed : Bool

abbrev pub new_pipe : PipeState
new_pipe = record { buf = []; closed = false }

-- A read takes its bytes in order. A closed pipe with too few gives up what it has.
unfoldable pub pipe_read_exact : ℕ → PipeState → Option (Result Bytes × PipeState)
pipe_read_exact n s =
    if leb n (length s.buf)
    then some (ok (take n s.buf), record s { buf = drop n s.buf })
    else if s.closed
    then some (err Exception.no_data, record s { buf = [] })
    else none

unfoldable pub pipe_write_all : Bytes → PipeState → Bool × PipeState
pipe_write_all bytes s = if s.closed then (false, s) else (true, record s { buf = s.buf ++ bytes })

unfoldable pub pipe_close : PipeState → PipeState
pipe_close s = record s { closed = true }

-- `impl DuplexStream for Pipe`; a flush does nothing.
abbrev pub pipe : DuplexStream PipeState
pipe = record {
  read_exact = pipe_read_exact;
  write_all = pipe_write_all;
  flush = λ s. (true, s);
  close = pipe_close;
}
