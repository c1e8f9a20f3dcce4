-- ===== src/Bwu/StreamChannel/Queue.antt =====
-- bwu/stream_channel.rs: the channel over a pipe is a queue of messages.
use nearby_rs.Prelude.{
  ℕ, ◌≤◌, ◌≡◌, refl, arith, Bool, true, false, Option, none, some, List, [], ◌∷◌, ◌++◌, Bytes,
  length, leb, leb→le, ap, sym, ◌∙◌, Bool-cases, inl, inr, if◌then◌else◌,
}
use nearby_rs.Proto.Codec.{Codec}
use nearby_rs.Frames.Defs.{Exception, Result, ok}
use nearby_rs.Bwu.StreamChannel.{
  Cipher, StreamChannel, default_max_allowed_read_bytes, read, write, pause, resume,
}
use nearby_rs.Bwu.StreamChannel.Pipe.{PipeState, pipe, pipe_read_exact}
use nearby_rs.Bwu.StreamChannel.Framing.{framed, on_pipe, append_assoc, write-framed, read-framed}

-- The calls of a client.
pub data ChannelOp : Type 0 where
  op_write : Bytes → ChannelOp
  op_read op_pause op_resume : ChannelOp

-- What a call gives; a call that blocks is given up.
pub data ChannelResult : Type 0 where
  written : Exception → ChannelResult
  received : Result Bytes → ChannelResult
  blocked finished : ChannelResult

-- The specification: messages in order, a limit on their length, and a flag that holds writes up.
pub record MessageQueue : Type 0 where
  pub messages : List Bytes
  pub limit : ℕ
  pub held : Bool

unfoldable pub step_queue : ChannelOp → MessageQueue → ChannelResult × MessageQueue
step_queue (op_write message) q =
    if q.held
    then (blocked, q)
    else if leb (length message) q.limit
    then (written Exception.success, record q { messages = q.messages ++ message ∷ [] })
    else (written Exception.io, q)
step_queue op_read q = elim q.messages [
  | [] ↦ (blocked, q)
  | message ∷ rest ↦ (received (ok message), record q { messages = rest })
]
step_queue op_pause q = (finished, record q { held = true })
step_queue op_resume q = (finished, record q { held = false })

-- What fits on the channel: no message is over the limit, and a length is at most 31 bits.
abbrev AllWithin : ℕ → List Bytes → Type 0
AllWithin limit [] = Unit
AllWithin limit (message ∷ messages) = (length message ≤ limit) × AllWithin limit messages

pub record IsSound (q : MessageQueue) : Type 0 where
  pub within : AllWithin q.limit q.messages
  pub small : q.limit ≤ default_max_allowed_read_bytes

AllWithin-append :
    (limit : ℕ) (messages : List Bytes) (message : Bytes)
    → AllWithin limit messages
    → length message ≤ limit
    → AllWithin limit (messages ++ message ∷ [])
AllWithin-append limit [] message h k = (k, tt)
AllWithin-append limit (m ∷ messages) message h k =
    (h.0, AllWithin-append limit messages message h.1 k)

abbrev queue_of : List Bytes → ℕ → Bool → MessageQueue
queue_of messages limit held = record { messages = messages; limit = limit; held = held }

IsSound-read :
    (messages : List Bytes) (n : ℕ) (b : Bool)
    → IsSound (queue_of messages n b)
    → IsSound (step_queue op_read (queue_of messages n b)).1
unfolding step_queue
IsSound-read [] n b h = h
IsSound-read (m ∷ messages) n b h = record { within = h.within.1; small = h.small }

IsSound-write :
    (message : Bytes) (messages : List Bytes) (n : ℕ) (b : Bool)
    → IsSound (queue_of messages n b)
    → IsSound (step_queue (op_write message) (queue_of messages n b)).1
unfolding step_queue
IsSound-write message messages n true h = h
IsSound-write message messages n false h = elim (Bool-cases (leb (length message) n)) [
  | inl k ↦ rw k (record {
    within = AllWithin-append n messages message h.within (leb→le (length message) n k);
    small = h.small;
  })
  | inr k ↦ rw k h
]

IsSound-step_queue : (op : ChannelOp) (q : MessageQueue) → IsSound q → IsSound (step_queue op q).1
unfolding step_queue
IsSound-step_queue (op_write message) q h = IsSound-write message q.messages q.limit q.held h
IsSound-step_queue op_read q h = IsSound-read q.messages q.limit q.held h
IsSound-step_queue op_pause q h = record { within = h.within; small = h.small }
IsSound-step_queue op_resume q h = record { within = h.within; small = h.small }

-- The bytes that the messages take on the stream.
unfoldable pub frames : List Bytes → Bytes
frames [] = []
frames (message ∷ messages) = framed message ++ frames messages

append_nil : (a : Bytes) → a ++ [] ≡ a
append_nil [] = refl
append_nil (x ∷ a) = ap (λ t. x ∷ t) (append_nil a)

frames-append :
    (messages : List Bytes) (message : Bytes)
    → frames (messages ++ message ∷ []) ≡ frames messages ++ framed message
unfolding frames
frames-append [] message = append_nil (framed message)
frames-append (m ∷ messages) message =
    ap (λ t. framed m ++ t) (frames-append messages message)
    ∙ sym (append_assoc (framed m) (frames messages) (framed message))

-- A call that would block leaves the channel as it was.
abbrev unblocked : {A C : Type 0} → (A → ChannelResult) → Option (A × C) → C → ChannelResult × C
unblocked f none c = (blocked, c)
unblocked f (some (a, c')) c = (f a, c')

module _ {Session : Type 0} (codec : Codec) (session : Cipher Session) where
  unfoldable pub step_channel :
      ChannelOp → StreamChannel PipeState Session → ChannelResult × StreamChannel PipeState Session
  step_channel (op_write message) c = unblocked written (write codec pipe session message c) c
  step_channel op_read c = unblocked received (read codec pipe session c) c
  step_channel op_pause c = (finished, pause codec pipe session c)
  step_channel op_resume c = (finished, resume codec pipe session c)

  unfoldable pub run_channel :
      List ChannelOp
      → StreamChannel PipeState Session
      → List ChannelResult × StreamChannel PipeState Session
  unfolding step_channel
  run_channel [] c = ([], c)
  run_channel (op ∷ ops) c =
      let (result, c') = step_channel op c in
      let (results, c'') = run_channel ops c' in (result ∷ results, c'')

  -- The channel that stands for a queue.
  abbrev pub as_channel :
      StreamChannel PipeState Session → MessageQueue → StreamChannel PipeState Session
  as_channel c q =
      on_pipe codec session (frames q.messages) none
        (record c { paused = q.held; max_allowed_read_bytes = q.limit })

  step_channel-read :
      (c : StreamChannel PipeState Session) (messages : List Bytes) (n : ℕ) (b : Bool)
      → IsSound (queue_of messages n b)
      → step_channel op_read (as_channel c (queue_of messages n b))
        ≡ (let (result, q) = step_queue op_read (queue_of messages n b) in (result, as_channel c q))
  unfolding step_channel step_queue frames read pipe_read_exact
  step_channel-read c [] n b h = refl
  step_channel-read c (m ∷ messages) n b h =
      let base = record c { paused = b; max_allowed_read_bytes = n } in
      rw (read-framed codec session base m (frames messages) h.small h.within.0) refl

  step_channel-as_channel :
      (op : ChannelOp) (c : StreamChannel PipeState Session) (q : MessageQueue)
      → IsSound q
      → step_channel op (as_channel c q) ≡ ((step_queue op q).0, as_channel c (step_queue op q).1)
  unfolding step_channel step_queue write pause resume
  step_channel-as_channel (op_write message) c q h =
      let base = record c { paused = q.held; max_allowed_read_bytes = q.limit } in
      elim (Bool-cases q.held) [
        | inl e ↦ ground (arith, e)
        | inr e ↦ ground (
          arith,
          e,
          write-framed codec session base message (frames q.messages) e,
          frames-append q.messages message,
        )
      ]
  step_channel-as_channel op_read c q h = step_channel-read c q.messages q.limit q.held h
  step_channel-as_channel op_pause c q h = refl
  step_channel-as_channel op_resume c q h = refl

unfoldable pub run_queue : List ChannelOp → MessageQueue → List ChannelResult × MessageQueue
unfolding step_queue
run_queue [] q = ([], q)
run_queue (op ∷ ops) q =
    let (result, q') = step_queue op q in
    let (results, q'') = run_queue ops q' in (result ∷ results, q'')

module _ {Session : Type 0} (codec : Codec) (session : Cipher Session) where
  -- The channel over a pipe, without a session, implements a queue of messages: any sequence of
  -- writes, reads, pauses and resumes gives what it gives on the queue, and leaves the channel of
  -- the queue that is left. Writes within the limit are read back whole, in order and once; longer
  -- ones are refused; a write waits while the channel is paused and a read while it is empty. The
  -- limit is at most 31 bits, and the queue starts with messages within it.
  pub run_channel-run_queue :
      (ops : List ChannelOp) (c : StreamChannel PipeState Session) (q : MessageQueue)
      → IsSound q
      → run_channel codec session ops (as_channel codec session c q)
        ≡ ((run_queue ops q).0, as_channel codec session c (run_queue ops q).1)
  unfolding run_channel run_queue
  run_channel-run_queue [] c q h = refl
  run_channel-run_queue (op ∷ ops) c q h =
      rw
        (
          step_channel-as_channel codec session op c q h,
          run_channel-run_queue ops c (step_queue op q).1 (IsSound-step_queue op q h),
        )
        refl
