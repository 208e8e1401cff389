-- ===== src/Stream/OutStreamQueue/NoEmpty.antt =====
-- out-stream-queue.sml: a client whose callbacks write no empty data.
use gocusp.Base.{
  Bool-cases, List, [], arith, false, inl, inr, length, none, refl, some, suc, zero, ℕ, ◌%◌, ◌++◌,
  ◌+◌, ◌<◌, ◌==◌, ◌∷◌, ◌≡◌, ◌≤◌,
}
use gocusp.Ml.{negate, pos}
use gocusp.Runtime.Engine.{Bytes, Pointer}
use gocusp.Stream.Heap.{Heap}
use gocusp.Stream.OutStreamQueue.{
  Notice, Queue, State, am_connected, am_reset, am_shutdown, became_reset, call_writer, do_reset,
  is_some, reset, retransmit_bytes_by, shut_down, shutdown, shutdown_in, update_rts, write,
  write_in, writer_reset,
}
use gocusp.Stream.OutStreamQueue.Client.{
  ClientCall, call, call_all, client, or_as_before, resets, shuts, writes,
}
use gocusp.Stream.OutStreamQueue.Fits.{IsPulled}
use gocusp.Stream.OutStreamQueue.Pull.{pull}
use gocusp.Stream.OutStreamQueue.Rounds.{
  GivesNoEmpty, call_writer-empties, empties, empty_buffer, empty_one, make_progress-empties,
  pull_total,
}

abbrev pub HasData : ClientCall → Type 0
HasData (writes bytes p) = (length bytes == 0) ≡ false
HasData _ = Unit

abbrev pub AllHaveData : List ClientCall → Type 0
AllHaveData [] = Unit
AllHaveData (c ∷ cs) = HasData c × AllHaveData cs

module _ (H : Heap) where
  module _ (answer : Notice → Queue H → Queue H) (gives : GivesNoEmpty H answer) where
    write_in-empties :
        (s : State) (bytes : Bytes) (p : Pointer) (q : Queue H)
        → (length bytes == 0) ≡ false
        → empties H (or_as_before H q (write_in H answer s bytes p q)) ≤ empties H q
    write_in-empties (am_shutdown r) bytes p q full = omega arith
    write_in-empties am_reset bytes p q full = gives (writer_reset p) q
    write_in-empties am_connected bytes p q full =
        let q1 : Queue H = record q {
          buffer = some bytes;
          writer = some p;
          given = q.given ++ bytes;
        } in
        let none_added : empty_buffer (some bytes) ≡ 0 = rw full refl in
        omega (arith, make_progress-empties H answer gives q1, none_added)

    shutdown_in-empties :
        (s : State) (p : Pointer) (q : Queue H)
        → empties H (or_as_before H q (shutdown_in H answer s p q)) ≤ empties H q
    unfolding update_rts
    shutdown_in-empties (am_shutdown r) p q = omega arith
    shutdown_in-empties am_reset p q = gives (shut_down p false) q
    shutdown_in-empties am_connected p q = omega arith

    do_reset-empties : (q : Queue H) → empties H (do_reset H answer q) ≤ empties H q
    unfolding do_reset
    do_reset-empties q =
        let q1 : Queue H = record q {
          state = am_reset;
          retransmit = H.new;
          retransmit_bytes = pos 0;
          writer = none;
          shutdowner = none;
          buffer = none;
          events = became_reset ∷ retransmit_bytes_by (negate q.retransmit_bytes) ∷ q.events;
        } in
        let q2 = call_writer H answer (λ p. shut_down p false) q.shutdowner q1 in
        omega (
          arith,
          call_writer-empties H answer gives writer_reset q.writer q2,
          call_writer-empties H answer gives (λ p. shut_down p false) q.shutdowner q1,
          H.total-new empty_one,
        )

    call-empties :
        (c : ClientCall) (q : Queue H) → HasData c → empties H (call H answer c q) ≤ empties H q
    unfolding write shutdown reset update_rts
    call-empties (writes bytes p) q full = elim (Bool-cases (is_some q.buffer)) [
      | inl waits ↦ rw waits (omega arith)
      | inr nothing ↦ rw nothing (write_in-empties q.state bytes p q full)
    ]
    call-empties (shuts p) q full = elim (Bool-cases (is_some q.buffer)) [
      | inl waits ↦ rw waits (omega arith)
      | inr nothing ↦ rw nothing (shutdown_in-empties q.state p q)
    ]
    call-empties resets q full = do_reset-empties q

    call_all-empties :
        (cs : List ClientCall) (q : Queue H)
        → AllHaveData cs
        → empties H (call_all H answer cs q) ≤ empties H q
    call_all-empties [] q full = omega arith
    call_all-empties (c ∷ cs) q full =
        omega (arith, call-empties c q full.0, call_all-empties cs (call H answer c q) full.1)

  module _ (script : Notice → Queue H → List ClientCall)
      (full : (n : Notice) (q : Queue H) → AllHaveData (script n q)) where
    client-GivesNoEmpty : (depth : ℕ) → GivesNoEmpty H (client H depth script)
    unfolding client
    client-GivesNoEmpty zero n q = omega arith
    client-GivesNoEmpty (suc depth) n q =
        call_all-empties (client H depth script) (client-GivesNoEmpty depth) (script n q) q
          (full n q)

    -- When the room for a packet is a multiple of four and at least eight bytes, and the
    -- client's callbacks write no empty data: with more rounds than the room and the empty
    -- segments that wait add up to, `pull` returns a packet, which raises no Subscript and
    -- takes no more than the room; the data in it has at most 4092 bytes.
    pub pull_ends :
        (depth rounds room : ℕ) (q : Queue H)
        → 8 ≤ room
        → room % 4 ≡ 0
        → room + empties H q < rounds
        → IsPulled H room (pull H (client H depth script) rounds room q)
    pull_ends depth rounds room q large whole enough =
        pull_total H (client H depth script) (client-GivesNoEmpty depth) rounds room q large whole
          enough
