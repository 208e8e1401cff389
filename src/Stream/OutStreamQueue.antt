-- ===== src/Stream/OutStreamQueue.antt =====
-- stream/out-stream-queue.sml: the queue behind an out stream. `none` is the exception RaceCondition,
-- or Domain. Writers and shutdowners are known by their pointers; the queue calls them back within its
-- functions, and what they do to it is the parameter `answer`. Data is the list of its bytes; a packet
-- is what goes into it, without its encoding. A priority that is finite is the pattern of its bits.
pub mod Pull
pub mod Account
pub mod Calls
pub mod Packets
pub mod Sends
pub mod Fits
pub mod Acks
pub mod Client
pub mod History
pub mod Done
pub mod Rounds
pub mod NoEmpty
pub mod ResetInReady
use gocusp.Base.{
  Bool, List, Option, [], false, if◌then◌else◌, leb, length, none, not, some, true, ℕ, ◌%◌, ◌&&◌,
  ◌++◌, ◌+◌, ◌-◌, ◌^◌, ◌∷◌,
}
use gocusp.Ml.{add_ℤ, negate, pos, ℤ}
use gocusp.Runtime.Engine.{Bytes, Pointer}
use gocusp.Stream.Heap.{Heap, Segment}

pub data Notice : Type 0 where
  writer_ready writer_reset : Pointer → Notice
  shut_down : Pointer → Bool → Notice

pub data Progress : Type 0 where
  to_retransmit in_flight ackd : Progress

pub data State : Type 0 where
  am_connected am_reset : State
  am_shutdown : Progress → State

pub data Priority : Type 0 where
  finite : ℕ → Priority
  neg_inf pos_inf : Priority

pub data QueueEvent : Type 0 where
  rts : Priority → QueueEvent
  became_reset became_complete : QueueEvent
  inflight_bytes_by retransmit_bytes_by : ℤ → QueueEvent

-- Word32 arithmetic, and the order of the keys: a - b < 0
abbrev pub add32 : ℕ → ℕ → ℕ
add32 a b = (a + b) % 2 ^ 32

abbrev pub sub32 : ℕ → ℕ → ℕ
sub32 a b = (a + 2 ^ 32 - b) % 2 ^ 32

unfoldable pub key_lt : ℕ → ℕ → Bool
key_lt a b = leb (2 ^ 31) (sub32 a b)

abbrev pub is_some {ℓ} : {A : Type ℓ} → Option A → Bool
is_some none = false
is_some (some a) = true

abbrev pub is_reset : State → Bool
is_reset am_reset = true
is_reset s = false

abbrev pub is_shut : State → Bool
is_shut (am_shutdown p) = true
is_shut s = false

abbrev pub is_acked : State → Bool
is_acked (am_shutdown ackd) = true
is_acked s = false

abbrev pub segment : ℕ → Bytes → Segment
segment k bytes = record { key = k; bytes = bytes }

-- What `pull` gives: the segments with their offset, and whether the end of the stream goes along.
pub record Packet : Type 0 where
  pub offset : ℕ
  pub eof : Bool
  pub segments : List Segment

module _ (H : Heap) where
  -- `given` is what `write` has accepted so far, `moved` what has left the buffer, and `acked` the
  -- segments that have arrived: they are kept for the theorems, and nothing reads them.
  pub record Queue : Type 0 where
    pub state : State
    pub priority : Priority
    pub inflight : H.T
    pub inflight_bytes : ℕ
    pub retransmit : H.T
    pub retransmit_bytes : ℤ
    pub bytes_sent : ℕ
    pub send_offset : ℕ
    pub barrier : ℕ
    pub buffer : Option Bytes
    pub writer : Option Pointer
    pub shutdowner : Option Pointer
    -- What the queue has told its callback, the last event first
    pub events : List QueueEvent
    pub given : Bytes
    pub moved : Bytes
    pub acked : List Segment

  unfoldable pub new_queue : Queue
  new_queue = record {
    state = am_connected;
    priority = finite 0;
    inflight = H.new;
    inflight_bytes = 0;
    retransmit = H.new;
    retransmit_bytes = pos 0;
    bytes_sent = 0;
    send_offset = 0;
    barrier = 21568;
    buffer = none;
    writer = none;
    shutdowner = none;
    events = [];
    given = [];
    moved = [];
    acked = [];
  }

  abbrev pub tell : QueueEvent → Queue → Queue
  tell e q = record q { events = e ∷ q.events }

  -- A head that is no less than 2048 bytes before the barrier is ready to send.
  abbrev head_rts : Option Segment → ℕ → Bool
  head_rts none barrier = false
  head_rts (some r) barrier = key_lt r.key (sub32 barrier 2048)

  abbrev rts_in : State → Option Segment → ℕ → Bool
  rts_in am_reset head barrier = true
  rts_in (am_shutdown to_retransmit) head barrier = true
  rts_in s head barrier = head_rts head barrier

  unfoldable pub am_rts : Queue → Bool
  am_rts q = rts_in q.state (H.peek q.retransmit) q.barrier

  unfoldable pub update_rts : Queue → Queue
  update_rts q = tell (rts (if am_rts q then q.priority else neg_inf)) q

  abbrev set_to : Priority → Queue → Option Queue
  set_to (finite x) q = some (update_rts (record q { priority = finite x }))
  set_to p q = none

  unfoldable pub set_priority : Priority → Queue → Option Queue
  set_priority p q = set_to p q

  module _ (answer : Notice → Queue → Queue) where
    abbrev pub call_writer : (Pointer → Notice) → Option Pointer → Queue → Queue
    call_writer n none q = q
    call_writer n (some p) q = answer (n p) q

    abbrev pub fill_with : Bytes → Queue → Queue
    fill_with buffer q = record q {
      retransmit = H.push (segment q.send_offset buffer) q.retransmit;
      events = retransmit_bytes_by (pos (length buffer)) ∷ q.events;
      buffer = none;
      writer = none;
      retransmit_bytes = add_ℤ q.retransmit_bytes (length buffer);
      send_offset = add32 q.send_offset (length buffer);
      moved = q.moved ++ buffer;
    }

    abbrev pub progress : Option Bytes → Queue → Queue
    progress none q = q
    progress (some buffer) q = call_writer writer_ready q.writer (update_rts (fill_with buffer q))

    unfoldable pub make_progress : Queue → Queue
    make_progress q = if is_some (H.peek q.retransmit) then update_rts q else progress q.buffer q

    abbrev write_in : State → Bytes → Pointer → Queue → Option Queue
    write_in (am_shutdown p) buffer writer q = none
    write_in am_reset buffer writer q = some (answer (writer_reset writer) q)
    write_in am_connected buffer writer q = some (
        make_progress
          (record q { buffer = some buffer; writer = some writer; given = q.given ++ buffer }))

    unfoldable pub write : Bytes → Pointer → Queue → Option Queue
    write buffer writer q = if is_some q.buffer then none else write_in q.state buffer writer q

    abbrev shutdown_in : State → Pointer → Queue → Option Queue
    shutdown_in (am_shutdown p) cb q = none
    shutdown_in am_reset cb q = some (answer (shut_down cb false) q)
    shutdown_in am_connected cb q =
        some (update_rts (record q { state = am_shutdown to_retransmit; shutdowner = some cb }))

    unfoldable pub shutdown : Pointer → Queue → Option Queue
    shutdown cb q = if is_some q.buffer then none else shutdown_in q.state cb q

    unfoldable pub do_reset : Queue → Queue
    do_reset q =
        let q1 = record q {
          state = am_reset;
          retransmit = H.new;
          retransmit_bytes = pos 0;
          writer = none;
          shutdowner = none;
          buffer = none;
          events = became_reset ∷ retransmit_bytes_by (negate q.retransmit_bytes) ∷ q.events;
        } in
        let q2 = call_writer (λ p. shut_down p false) q.shutdowner q1 in
        call_writer writer_reset q.writer q2

    unfoldable pub reset : Queue → Queue
    reset q = update_rts (do_reset q)

    unfoldable pub am_done : Queue → Bool
    am_done q =
        is_acked q.state && not (is_some (H.peek q.inflight)) && not (is_some (H.peek q.retransmit))

    unfoldable pub check_done : Queue → Queue
    check_done q =
        if am_done q
        then call_writer (λ p. shut_down p true) q.shutdowner
            (record q { shutdowner = none; events = became_complete ∷ q.events })
        else q
