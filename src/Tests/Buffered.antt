-- ===== src/Tests/Buffered.antt =====
-- BufferedOutStream at concrete runs.
use gocusp.Base.{List, [], arith, false, le→leb, refl, some, true, ℕ, ◌∷◌, ◌≡◌, ◌≤◌}
use gocusp.Cusp.Ref.{ref}
use gocusp.Ml.{pos}
use gocusp.Runtime.Engine.{out_stream_write}
use gocusp.Runtime.Handles.{out_stream}
use gocusp.Runtime.World.{World, start, ◌>>=◌}
use gocusp.Tests.Samples.{
  busy, sample_engine, sample_engine-AcceptsInTurn, small_allocator, two_used-IsValid,
}
use gocusp.Util.BufferedOutStream.{BufferedOutStream, unused}
use gocusp.Util.BufferedOutStream.Delivery.{delivery}
use gocusp.Util.BufferedOutStream.Drain.{Drained, shutdown-Drained}
use gocusp.Util.BufferedOutStream.Session.{session, session-Drained}
use gocusp.Util.BufferedOutStream.Steps.{
  Activity, AllAllowed, Goes, Going, activity, answered, finished, given, run_activities, waiting,
}

abbrev client_calls : List Activity
client_calls =
    given (1 ∷ 2 ∷ []) ∷ given (3 ∷ []) ∷ answered ∷ given (4 ∷ []) ∷ finished 9 ∷ answered ∷ []

in_room : (n : ℕ) → n ≤ 2000 → small_allocator.has_room n ≡ true
in_room n h = le→leb n 2000 h

session_allowed : AllAllowed false client_calls
session_allowed = (refl, (refl, (tt, (refl, ((refl, refl), (tt, tt))))))

delivery_example : Goes 2 20 true (1 ∷ 2 ∷ 3 ∷ 4 ∷ []) (
    run_activities small_allocator sample_engine 4 20 client_calls
      (unused (ref out_stream (pos 2)) 5)
      busy)
unfolding start
delivery_example =
    delivery small_allocator sample_engine 4 20 2 2000 5 refl (sample_engine-AcceptsInTurn 20)
      (omega arith) in_room (omega arith) busy refl refl refl client_calls session_allowed
      (omega arith)

-- A write of 1 waits, 2 is in the buffer, and the client has asked for a shutdown.
abbrev last_byte : BufferedOutStream
last_byte = record (unused (ref out_stream (pos 2)) 5) {
  ready = false;
  buf = some (2 ∷ 255 ∷ []);
  buf_size = 1;
  buf_alloc = 2;
  shutdown_request = 9;
}

abbrev waiting_world : World
waiting_world = record busy { log = out_stream_write 20 (1 ∷ []) 4 ∷ [] }

last_byte-Going : Going 2 20 true (1 ∷ 2 ∷ []) last_byte waiting_world
last_byte-Going = record {
  same_os = refl;
  live = refl;
  sound = record { block_length = refl; fits = omega arith };
  delivered = refl;
  bounded = omega arith;
  phase = waiting refl refl refl;
}

shutdown-Drained_example : Drained 2 20 (1 ∷ 2 ∷ []) (
    (do
      b1 ← activity small_allocator sample_engine 4 20 answered last_byte
      activity small_allocator sample_engine 4 20 answered b1)
      waiting_world)
shutdown-Drained_example =
    shutdown-Drained small_allocator sample_engine 4 20 2 refl (sample_engine-AcceptsInTurn 20)
      (1 ∷ 2 ∷ []) last_byte waiting_world last_byte-Going

session-Drained_example :
    (own : ℕ) × Drained own 20
      (1 ∷ 2 ∷ 3 ∷ 4 ∷ [])
      (session small_allocator sample_engine 4 20 (ref out_stream (pos 2)) 5 client_calls busy)
unfolding start
session-Drained_example =
    session-Drained small_allocator sample_engine 4 20 2 2000 5 refl refl
      (sample_engine-AcceptsInTurn 20) (omega arith) in_room (omega arith) busy two_used-IsValid
      refl refl refl client_calls session_allowed refl (omega arith)
