-- ===== src/Bwu/StreamChannel/Examples.antt =====
-- Frames on a channel over a pipe.
use nearby_rs.Prelude.{
  ℕ, suc, ◌≡◌, true, refl, arith, false, none, some, List, [], ◌∷◌, ◌++◌, ascii, if◌then◌else◌, leb,
}
use nearby_rs.Mediums.{Medium}
use nearby_rs.Proto.Sample.{sample_codec}
use nearby_rs.Frames.Defs.{Exception, err, ok}
use nearby_rs.Bwu.StreamChannel
use nearby_rs.Bwu.StreamChannel.{
  Cipher, StreamChannel, default_max_allowed_read_bytes, to_be_bytes, from_be_bytes, read, write,
}
use nearby_rs.Bwu.StreamChannel.Pipe.{PipeState, new_pipe, pipe}
use nearby_rs.Bwu.StreamChannel.Framing.{
  framed, write-framed, read-framed, read-refused, read-write_encrypted, on_pipe,
}
use nearby_rs.Bwu.StreamChannel.Queue.{
  ChannelOp, op_write, op_read, op_pause, op_resume, MessageQueue, as_channel, run_channel,
  run_queue, run_channel-run_queue,
}

-- A session that counts its messages, and puts the count before each.
abbrev counting : Cipher ℕ
counting = record {
  encode = λ bytes n. (some (n ∷ bytes), suc n);
  decode = λ bytes n. elim bytes [ [] ↦ (none, n) | _ ∷ rest ↦ (some rest, suc n) ];
}

abbrev channel : StreamChannel PipeState ℕ
channel =
    StreamChannel.new sample_codec pipe counting (ascii "service") (ascii "name") Medium.bluetooth
      new_pipe

write-framed_example :
    write sample_codec pipe counting
      (ascii "hello")
      (on_pipe sample_codec counting (framed (ascii "hi")) none channel)
    ≡ (if leb 5 channel.max_allowed_read_bytes
        then some (
          Exception.success,
          on_pipe sample_codec counting
              (framed (ascii "hi") ++ framed (ascii "hello"))
              none
              channel,
        )
        else some (Exception.io, on_pipe sample_codec counting (framed (ascii "hi")) none channel))
unfolding StreamChannel.new
write-framed_example =
    write-framed sample_codec counting channel (ascii "hello") (framed (ascii "hi")) refl

read-framed_example :
    read sample_codec pipe counting
      (on_pipe sample_codec counting (framed (ascii "hi") ++ framed (ascii "hello")) none channel)
    ≡ some (ok (ascii "hi"), on_pipe sample_codec counting (framed (ascii "hello")) none channel)
unfolding StreamChannel.new
read-framed_example =
    read-framed sample_codec counting channel (ascii "hi") (framed (ascii "hello")) (omega arith)
      (omega arith)

read-write_encrypted_example :
    (write sample_codec pipe counting
        (ascii "hi")
        (on_pipe sample_codec counting [] (some 4) channel)
      ≡ some (
        Exception.success,
        on_pipe sample_codec counting (framed (4 ∷ ascii "hi")) (some 5) channel,
      ))
    × (read sample_codec pipe counting
          (on_pipe sample_codec counting (framed (4 ∷ ascii "hi") ++ []) (some 9) channel)
        ≡ some (ok (ascii "hi"), on_pipe sample_codec counting [] (some 10) channel))
unfolding StreamChannel.new
read-write_encrypted_example =
    read-write_encrypted sample_codec counting channel 4 5 9 10 (ascii "hi") (4 ∷ ascii "hi") []
      refl (omega arith) refl refl refl (omega arith)

-- A channel with a limit of three bytes.
abbrev narrow : StreamChannel PipeState ℕ
narrow = record channel { max_allowed_read_bytes = 3 }

read-refused_example :
    (read sample_codec pipe counting
        (on_pipe sample_codec counting (to_be_bytes 4_294_967_295 ++ ascii "hello") none channel)
      ≡ some (err Exception.io, on_pipe sample_codec counting (ascii "hello") none channel))
    × (read sample_codec pipe counting
          (record channel { stream = record { buf = 0 ∷ 0 ∷ []; closed = true }; cipher = none })
        ≡ some (
          err Exception.no_data,
          record channel { stream = record { buf = []; closed = true }; cipher = none },
        ))
read-refused_example =
    read-refused sample_codec counting channel none 4_294_967_295 (0 ∷ 0 ∷ []) (ascii "hello")
      (omega arith) (omega arith) (omega arith)

-- A channel with a limit of five bytes: a message is too long, and a write waits for a resume.
abbrev ops : List ChannelOp
ops =
    op_write (ascii "hi")
    ∷ op_write (ascii "hello world")
    ∷ op_pause
    ∷ op_write (ascii "there")
    ∷ op_resume
    ∷ op_write (ascii "there")
    ∷ op_read
    ∷ op_read
    ∷ op_read
    ∷ []

abbrev empty_queue : MessageQueue
empty_queue = record { messages = []; limit = 5; held = false }

run_channel-run_queue_example :
    run_channel sample_codec counting ops (as_channel sample_codec counting channel empty_queue) ≡ (
      (run_queue ops empty_queue).0,
      as_channel sample_codec counting channel (run_queue ops empty_queue).1,
    )
run_channel-run_queue_example =
    run_channel-run_queue sample_codec counting ops channel empty_queue
      (record { within = tt; small = omega arith })
