-- ===== src/Tests/Connections.antt =====
-- The connections of cbindings/util at concrete runs.
use gocusp.Util.AbortableContactHandler
use gocusp.Util.BiDiConn
use gocusp.Base.{List, [], arith, false, none, refl, some, true, ℕ, ◌++◌, ◌+◌, ◌∷◌, ◌≡◌}
use gocusp.Cusp.Lifecycle.{object_at}
use gocusp.Cusp.Ref.{ref}
use gocusp.Demo.Server.{Connection}
use gocusp.Ml.{minus_one, pos}
use gocusp.Runtime.Engine.{
  Pointer, end_point_set_rate, host_connect, in_stream_read, out_stream_shutdown, out_stream_write,
}
use gocusp.Runtime.Handles.{host, in_stream, out_stream}
use gocusp.Runtime.World.{M, World, memory_fault, pure, returns, stops, ◌>>=◌, ◌>>◌}
use gocusp.Tests.Samples.{busy, calm_engine, sample_engine, two_used-IsValid}
use gocusp.Util.AbortableContactHandler.{AbortableContactHandler}
use gocusp.Util.BiDiConn.{
  BiDiConn, Owned, contacted, on_receive, on_shutdown, service_bytes, still_there,
  waiting_for_contact,
}
use gocusp.Util.BiDiConn.Aborted.{reset_while_contacting}
use gocusp.Util.BiDiConn.ConnectBack.{accepted, connects_back}
use gocusp.Util.SingleCycle.{
  Client, RequestHandler, ResponseHandler, ServerConn, client_events, server_events,
}
use gocusp.Util.SingleCycle.ClientCycle.{client_request, client_response}
use gocusp.Util.SingleCycle.Receive.{IsOpen, read_log, receive_all}
use gocusp.Util.SingleCycle.ServerCycle.{server_cycle}
use gocusp.Util.SingleMessage.{
  SingleMessageInStream, receiver, receiver_on_receive, sender, sender_on_ready,
}
use gocusp.Util.SingleMessage.Exchange.{message_sent, second_chunk_unread}

abbrev sum_contact : Pointer → ℕ → M ℕ
sum_contact p n w = returns (n + p) w

reset_while_contacting_example :
    (do
      c ← BiDiConn.reset sample_engine 4 (waiting_for_contact sample_engine 4 80)
      contacted sample_engine 4 (ref host (pos 3)) (ref out_stream (pos 2)) c)
      busy
    ≡ stops memory_fault
reset_while_contacting_example =
    reset_while_contacting sample_engine 4 80 (ref host (pos 3)) (ref out_stream (pos 2)) busy

-- A connection from the host 3 over the in stream 3 and the out stream 2.
abbrev open_conn : BiDiConn
open_conn = record {
  remote_service = 80;
  local_service = 0;
  host_ = ref host (pos 3);
  is = ref in_stream (pos 3);
  os = ref out_stream (pos 2);
  contact_set = false;
  contact = none;
}

open_conn-IsOpen : IsOpen 3 2 open_conn
open_conn-IsOpen = record { in_open = refl; out_open = refl }

-- What a client is told goes into the log as calls of the address of its handler.
abbrev reporting : ResponseHandler
reporting = record {
  on_response =
      λ p response w. returns tt (record w { log = end_point_set_rate p (pos 1) ∷ w.log });
  on_fail = λ p w. returns tt w;
}

abbrev echo : RequestHandler
echo = record { on_request = λ p request h w. returns (9 ∷ request) w }

abbrev sample_client : Owned Client
sample_client = record {
  owner = record { handler = 6; request = 1 ∷ 2 ∷ []; response = [] };
  conn = open_conn;
}

abbrev sample_server : Owned ServerConn
sample_server = record {
  owner = record { handler = 6; send_ready = true; request = []; response = [] };
  conn = open_conn;
}

client_response_example :
    (do
      r ←
          receive_all sample_engine 4
            (client_events sample_engine 4 reporting)
            ((7 ∷ []) ∷ (8 ∷ []) ∷ [])
            sample_client
      still_there r (on_shutdown sample_engine 4 (client_events sample_engine 4 reporting)))
      busy
    ≡ (do
      reporting.on_response 6 (7 ∷ 8 ∷ [])
      pure (
          some (record sample_client {
            owner = record sample_client.owner { response = 7 ∷ 8 ∷ [] };
          })))
        (record busy { log = read_log 4 10 ((7 ∷ []) ∷ (8 ∷ []) ∷ []) busy.log })
client_response_example =
    client_response sample_engine 4 3 2 10 refl (λ l. refl) reporting ((7 ∷ []) ∷ (8 ∷ []) ∷ [])
      sample_client busy open_conn-IsOpen refl

client_request_example :
    (do
      r ← BiDiConn.on_ready calm_engine 4 (client_events calm_engine 4 reporting) sample_client
      still_there r (BiDiConn.on_ready calm_engine 4 (client_events calm_engine 4 reporting)))
      (record busy { log = [] })
    ≡ returns
        (some (record sample_client { owner = record sample_client.owner { request = [] } }))
        (record busy { log = out_stream_shutdown 20 4 ∷ out_stream_write 20 (1 ∷ 2 ∷ []) 4 ∷ [] })
client_request_example =
    client_request calm_engine 4 3 2 10 refl (λ l. refl) reporting 20 sample_client
      (record busy { log = [] }) open_conn-IsOpen refl refl refl refl

server_cycle_example :
    (do
      r ←
          receive_all calm_engine 4
            (server_events calm_engine 4 echo)
            ((7 ∷ []) ∷ (8 ∷ []) ∷ [])
            sample_server
      replied ← still_there r (on_shutdown calm_engine 4 (server_events calm_engine 4 echo))
      still_there replied (BiDiConn.on_ready calm_engine 4 (server_events calm_engine 4 echo)))
      busy
    ≡ returns
        (some (record sample_server {
          owner = record sample_server.owner { request = 7 ∷ 8 ∷ []; response = 9 ∷ 7 ∷ 8 ∷ [] };
        }))
        (record busy {
          log =
              out_stream_shutdown 20 4
              ∷ out_stream_write 20 (9 ∷ 7 ∷ 8 ∷ []) 4
              ∷ read_log 4 10 ((7 ∷ []) ∷ (8 ∷ []) ∷ []) busy.log;
        })
server_cycle_example =
    server_cycle calm_engine 4 3 2 10 refl (λ l. refl) echo 20 ((7 ∷ []) ∷ (8 ∷ []) ∷ [])
      (9 ∷ 7 ∷ 8 ∷ []) sample_server busy
      (record busy { log = read_log 4 10 ((7 ∷ []) ∷ (8 ∷ []) ∷ []) busy.log }) open_conn-IsOpen
      refl refl refl refl refl refl refl

message_sent_example :
    (after : World) × ((do
      sent ← sender calm_engine 4 (ref out_stream (pos 2)) (1 ∷ 2 ∷ []) 6
      sender_on_ready calm_engine 4 sent)
        busy
      ≡ returns tt after)
    × (after.log ≡ (out_stream_shutdown 20 4 ∷ out_stream_write 20 (1 ∷ 2 ∷ []) 4 ∷ busy.log))
message_sent_example =
    message_sent calm_engine 4 busy 2 20 6 (1 ∷ 2 ∷ []) refl refl two_used-IsValid refl refl refl

second_chunk_unread_example :
    (r : SingleMessageInStream) × (after : World) × ((do
      receiving ← receiver calm_engine 4 (ref in_stream (pos 3)) 6
      receiver_on_receive calm_engine 4 (7 ∷ []) receiving)
        busy
      ≡ returns r after)
    × (r.buffer ≡ (7 ∷ []))
    × (after.log ≡ (in_stream_read 10 minus_one 4 ∷ busy.log))
second_chunk_unread_example =
    second_chunk_unread calm_engine 4 busy 3 10 6 (7 ∷ []) refl refl two_used-IsValid refl refl

abbrev fresh_server : ServerConn
fresh_server = record { handler = 6; send_ready = false; request = []; response = [] }

connects_back_example :
    (ho : ℕ) × (after : World) × (on_receive calm_engine 4
        (server_events calm_engine 4 echo)
        (service_bytes 1027 ++ (7 ∷ 8 ∷ []))
        (accepted 3 3 fresh_server)
        busy
      ≡ returns
          (some (record {
            owner = record fresh_server { send_ready = true; request = 7 ∷ 8 ∷ [] };
            conn = record (accepted 3 3 fresh_server).conn {
              remote_service = 1027;
              os = ref out_stream (pos ho);
            };
          }))
          after)
    × (object_at out_stream after ho ≡ some 7)
    × (after.log ≡ (in_stream_read 10 minus_one 4 ∷ host_connect 10 1027 ∷ busy.log))
connects_back_example =
    connects_back calm_engine 4 echo busy 3 10 3 10 fresh_server 1027 7 (8 ∷ []) refl (omega arith)
      refl refl refl refl two_used-IsValid refl refl

-- Two clients of a server, over the out streams 3 and 2.
abbrev two_clients : List Connection
two_clients =
    record {
      self = 11;
      is = ref in_stream (pos 3);
      remote_host = ref host (pos 3);
      os = ref out_stream (pos 3);
      ready = true;
    }
    ∷ record {
      self = 12;
      is = ref in_stream (pos 2);
      remote_host = ref host (pos 2);
      os = ref out_stream (pos 2);
      ready = true;
    }
    ∷ []
