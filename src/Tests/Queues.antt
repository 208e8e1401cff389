-- ===== src/Tests/Queues.antt =====
-- out-stream-queue.sml on a small stream, over the heap that is a sorted list.
use gocusp.Base.{List, [], arith, length, none, refl, some, true, ◌+◌, ◌∷◌, ◌≡◌}
use gocusp.Ml.{negate, pos}
use gocusp.Stream.Heap.{Segment}
use gocusp.Stream.ListHeap.{list_heap}
use gocusp.Stream.OutStreamQueue.{
  Notice, Packet, Queue, am_connected, am_done, am_rts, am_shutdown, check_done, finite, in_flight,
  inflight_bytes_by, key_lt, make_progress, neg_inf, new_queue, retransmit_bytes_by, rts, segment,
  shutdown, to_retransmit, update_rts, write,
}
use gocusp.Stream.OutStreamQueue.Account.{length-IsAdditive, on, sum_of}
use gocusp.Stream.OutStreamQueue.Client.{ClientCall, client, resets}
use gocusp.Stream.OutStreamQueue.Done.{done-Acked}
use gocusp.Stream.OutStreamQueue.Fits.{IsPulled}
use gocusp.Stream.OutStreamQueue.History.{
  ReachableQueue, created, heard_of, no_byte_lost, pulled, shut_down_by, wrote,
}
use gocusp.Stream.OutStreamQueue.NoEmpty.{pull_ends}
use gocusp.Stream.OutStreamQueue.Pull.{ack, pull, pull_contiguous, pull_segments}
use gocusp.Stream.OutStreamQueue.ResetInReady.{IsFull, IsNegative, pull_after_reset}

-- A client whose callbacks call nothing, and one that resets its stream whenever it is told something.
abbrev silent : Notice → Queue list_heap → List ClientCall
silent n q = []

abbrev hasty : Notice → Queue list_heap → List ClientCall
hasty n q = resets ∷ []

abbrev three_bytes : Segment
three_bytes = segment 0 (1 ∷ 2 ∷ 3 ∷ [])

-- A stream of three bytes, with its shutdown.
abbrev written : Queue list_heap
written = record {
  state = am_connected;
  priority = finite 0;
  inflight = [];
  inflight_bytes = 0;
  retransmit = three_bytes ∷ [];
  retransmit_bytes = pos 3;
  bytes_sent = 0;
  send_offset = 3;
  barrier = 21568;
  buffer = none;
  writer = none;
  shutdowner = none;
  events = rts (finite 0) ∷ retransmit_bytes_by (pos 3) ∷ [];
  given = 1 ∷ 2 ∷ 3 ∷ [];
  moved = 1 ∷ 2 ∷ 3 ∷ [];
  acked = [];
}

abbrev ended : Queue list_heap
ended = record written {
  state = am_shutdown to_retransmit;
  shutdowner = some 5;
  events = rts (finite 0) ∷ written.events;
}

abbrev last_packet : Packet
last_packet = record { offset = 0; eof = true; segments = three_bytes ∷ [] }

abbrev sent : Queue list_heap
sent = record ended {
  state = am_shutdown in_flight;
  inflight = three_bytes ∷ [];
  inflight_bytes = 3;
  retransmit = [];
  retransmit_bytes = pos 0;
  events =
      retransmit_bytes_by (negate (pos 3)) ∷ inflight_bytes_by (pos 3) ∷ rts neg_inf ∷ ended.events;
}

abbrev under_way : List Segment
under_way = []

abbrev arrived_queue : Queue list_heap
arrived_queue = ack list_heap (client list_heap 1 silent) last_packet true sent

written-Reachable : ReachableQueue list_heap 1 silent written []
unfolding new_queue write make_progress update_rts am_rts client key_lt
written-Reachable = wrote written (1 ∷ 2 ∷ 3 ∷ []) 9 created refl

ended-Reachable : ReachableQueue list_heap 1 silent ended []
unfolding shutdown update_rts am_rts client
ended-Reachable = shut_down_by ended 5 written-Reachable refl

sent-Reachable : ReachableQueue list_heap 1 silent sent (three_bytes ∷ [])
unfolding pull pull_segments pull_contiguous make_progress update_rts am_rts client key_lt
sent-Reachable = pulled sent 2 12 8 last_packet ended-Reachable refl

arrived-Reachable : ReachableQueue list_heap 1 silent arrived_queue []
arrived-Reachable = heard_of [] [] last_packet true refl sent-Reachable

arrived-Done : am_done list_heap (client list_heap 1 silent) arrived_queue ≡ true
unfolding am_done ack check_done make_progress update_rts am_rts client
arrived-Done = refl

no_byte_lost_example :
    (sent.inflight_bytes ≡ 3)
    × (sent.retransmit_bytes ≡ pos 0)
    × (0 + 0 + sum_of (on length) (three_bytes ∷ []) + sum_of (on length) sent.acked ≡ 3)
no_byte_lost_example =
    no_byte_lost list_heap 1 silent sent (three_bytes ∷ []) length sent-Reachable refl
      length-IsAdditive

done-Acked_example :
    (under_way ≡ [])
    × (arrived_queue.buffer ≡ none)
    × (sum_of (on length) arrived_queue.acked ≡ length arrived_queue.given)
done-Acked_example =
    done-Acked list_heap 1 silent arrived_queue under_way length arrived-Reachable arrived-Done
      length-IsAdditive

pull_ends_example : IsPulled list_heap 12 (pull list_heap (client list_heap 1 silent) 13 12 ended)
pull_ends_example =
    pull_ends list_heap silent (λ n q. tt) 1 13 12 ended (omega arith) refl (omega arith)

-- Eight bytes wait to be sent, and the writer waits with one more.
abbrev eight_bytes : Segment
eight_bytes = segment 0 (1 ∷ 2 ∷ 3 ∷ 4 ∷ 5 ∷ 6 ∷ 7 ∷ 8 ∷ [])

abbrev waiting_writer : Queue list_heap
waiting_writer = record written {
  retransmit = eight_bytes ∷ [];
  retransmit_bytes = pos 8;
  send_offset = 8;
  buffer = some (9 ∷ []);
  writer = some 9;
}

waiting_writer-IsFull :
    IsFull list_heap 1 9 hasty (λ q. refl) waiting_writer eight_bytes [] (9 ∷ []) 12
unfolding key_lt
waiting_writer-IsFull = record {
  connected = refl;
  first = refl;
  popped = refl;
  only = refl;
  buffered = refl;
  waiter = refl;
  open_yet = refl;
  large = omega arith;
  whole = refl;
  fits = refl;
}

pull_after_reset_example :
    IsNegative list_heap 1 9 hasty
      (λ q. refl)
      8
      (pull list_heap (client list_heap 2 hasty) 3 12 waiting_writer)
pull_after_reset_example =
    pull_after_reset list_heap 1 9 hasty (λ q. refl) waiting_writer eight_bytes [] (9 ∷ []) 12 2
      waiting_writer-IsFull
