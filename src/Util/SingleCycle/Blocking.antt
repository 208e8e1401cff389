-- ===== src/Util/SingleCycle/Blocking.antt =====
-- singlecycleconn.cpp: SingleCycleConn::request, which blocks in cuspMain until the response is there.
-- The callbacks that the library makes while it runs are a list; the last one stops it.
use gocusp.Util.AbortableContactHandler
use gocusp.Util.BiDiConn
use gocusp.Base.{Bool, List, Option, [], none, some, ◌∷◌}
use gocusp.Cusp.Init.{cusp_main_loop, cusp_main_stop}
use gocusp.Cusp.Ref.{Ref}
use gocusp.Runtime.Engine.{Bytes, Engine, Pointer, ServiceId}
use gocusp.Runtime.Handles.{address, end_point, host, in_stream, out_stream}
use gocusp.Runtime.World.{M, memory_fault, pure, stop, ◌>>=◌, ◌>>◌}
use gocusp.Util.AbortableContactHandler.{AbortableContactHandler}
use gocusp.Util.BiDiConn.{BiDiConn, ConnHandler, Owned, contact_failed, contacted}
use gocusp.Util.SingleCycle.{
  Client, ResponseHandler, client_events, client_of_address, client_of_host,
}

pub data CycleEvent : Type 0 where
  found : Ref host → Ref out_stream → CycleEvent
  not_found ready shut gone : CycleEvent
  connected : ServiceId → Ref in_stream → CycleEvent
  received : Bytes → CycleEvent
  sent : Bool → CycleEvent

-- The local objects of the function: the connection, and the response that BlockHandler keeps.
pub record Blocked : Type 0 where
  pub cycle : Owned Client
  pub response : Bytes

module _ (E : Engine) (self : Pointer) where
  -- BlockHandler, but for the assignment of the response
  abbrev pub block_handler : ResponseHandler
  block_handler = record {
    on_response = λ p bytes. cusp_main_stop E;
    on_fail = λ p. cusp_main_stop E;
  }

  abbrev pub events : ConnHandler Client
  events = client_events E self block_handler

  abbrev unless_deleted : Option (Owned Client) → M (Option (Owned Client))
  unless_deleted none = pure none
  unless_deleted (some x) = contact_failed E self events x

  abbrev with_contact :
      Option AbortableContactHandler → Option (Owned Client) → M (Option (Owned Client))
  with_contact left none = pure none
  with_contact left (some x) = pure (some (record x { conn = record x.conn { contact = left } }))

  abbrev pub event : CycleEvent → Owned Client → M (Option (Owned Client))
  event (found h stream) x = do
    c ← contacted E self h stream x.conn
    pure (some (record x { conn = c }))
  event not_found x = do
    (left, r) ←
        AbortableContactHandler.on_contact_fail (λ p. unless_deleted) x.conn.contact (some x)
    with_contact left r
  event ready x = BiDiConn.on_ready E self events x
  event shut x = BiDiConn.on_shutdown E self events x
  event gone x = BiDiConn.on_reset E self events x
  event (connected service stream) x = do
    c ← BiDiConn.on_connect E self service stream x.conn
    pure (some (record x { conn = c }))
  event (received bytes) x = BiDiConn.on_receive E self events bytes x
  event (sent success) x = BiDiConn.on_shutdown_done E self events success x

  -- BlockHandler::onResponse keeps what it is called with.
  abbrev pub kept : CycleEvent → Owned Client → Bytes → Bytes
  kept shut x response = x.owner.response
  kept e x response = response

  abbrev pub blocked : CycleEvent → Bytes → Option (Owned Client) → M Blocked
  blocked e response none = stop memory_fault
  blocked e response (some x) = pure (record { cycle = x; response = kept e x response })

  unfoldable pub handle_all : List CycleEvent → Blocked → M Blocked
  handle_all [] b = pure b
  handle_all (e ∷ es) b = do r ← event e b.cycle; b1 ← blocked e b.response r; handle_all es b1

  abbrev pub begun : List CycleEvent → M (Owned Client) → M Blocked
  begun es made = do x ← made; cusp_main_loop E; handle_all es (record { cycle = x; response = [] })

  -- The rest of both functions, with the connection that they make
  abbrev pub response_to : List CycleEvent → M (Owned Client) → M Bytes
  response_to es made = do b ← begun es made; BiDiConn.destroy E self b.cycle.conn; pure b.response

  -- request(endPoint, addr, service, request), with the BlockHandler at `handler`
  unfoldable pub request_of_address :
      Ref end_point
      → Ref address
      → ServiceId
      → Bytes
      → (handler contact_self : Pointer) → List CycleEvent
      → M Bytes
  request_of_address end_point_ addr service request handler contact_self es =
      response_to es (client_of_address E self end_point_ addr service request handler contact_self)

  -- request(host, service, request)
  unfoldable pub request_of_host :
      Ref host → ServiceId → Bytes → (handler : Pointer) → List CycleEvent → M Bytes
  request_of_host h service request handler es =
      response_to es (client_of_host E self h service request handler)
