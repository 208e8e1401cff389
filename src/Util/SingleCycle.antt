-- ===== src/Util/SingleCycle.antt =====
-- cbindings/util/singlecycleconn.cpp: one request and one response over a connection.
pub mod Receive
pub mod ClientCycle
pub mod ServerCycle
pub mod Blocking
pub mod Response
pub mod Opening
pub mod Session
pub mod Request
pub mod Reset
use gocusp.Cusp.EndPoint
use gocusp.Cusp.Host
use gocusp.Util.BiDiConn
use gocusp.Base.{Bool, Option, [], false, if◌then◌else◌, none, some, true, ◌++◌, ◌∷◌}
use gocusp.Cusp.Classes.{class_of}
use gocusp.Cusp.Ref.{Ref}
use gocusp.Ml.{is_nonneg}
use gocusp.Runtime.Engine.{Bytes, Engine, Pointer, ServiceId}
use gocusp.Runtime.Handles.{address, end_point, host, in_stream}
use gocusp.Runtime.World.{M, pure, ◌>>=◌, ◌>>◌}
use gocusp.Util.AbortableContactHandler.{on_contact_fail}
use gocusp.Util.BiDiConn.{BiDiConn, ConnHandler, Owned, of_address, of_host, of_stream, send_data}

-- SingleCycleConn::Handler and SingleCycleServer::Handler
pub record ResponseHandler : Type 0 where
  pub on_response : Pointer → Bytes → M (Unit {0})
  pub on_fail : Pointer → M (Unit {0})

pub record RequestHandler : Type 0 where
  pub on_request : Pointer → Bytes → Ref host → M Bytes

abbrev pub no_bytes : Bytes → Bool
no_bytes [] = true
no_bytes (b ∷ bs) = false

-- SingleCycleConn, which owns its connection
pub record Client : Type 0 where
  pub handler : Pointer
  pub request : Bytes
  pub response : Bytes

-- SingleCycleServer::Conn, which is a connection, with the handler of its server
pub record ServerConn : Type 0 where
  pub handler : Pointer
  pub send_ready : Bool
  pub request : Bytes
  pub response : Bytes

pub record SingleCycleServer : Type 0 where
  pub end_point_ : Ref end_point
  pub host_ : Ref host
  pub local_service : ServiceId
  pub handler : Pointer

module _ (E : Engine) (self : Pointer) where
  module _ (calls : ResponseHandler) where
    abbrev failed : Owned Client → M (Option (Owned Client))
    failed x = do
      calls.on_fail x.owner.handler
      c ← BiDiConn.reset E self x.conn
      pure (some (record x { conn = c }))

    abbrev send_or_shutdown : Owned Client → M (Option (Owned Client))
    send_or_shutdown x =
        if no_bytes x.owner.request
        then (do BiDiConn.shutdown E self x.conn; pure (some x))
        else (do
          send_data E self x.owner.request x.conn
          pure (some (record x { owner = record x.owner { request = [] } })))

    -- The callbacks of SingleCycleConn
    unfoldable pub client_events : ConnHandler Client
    client_events = record {
      on_contact_fail = failed;
      on_send_ready = send_or_shutdown;
      on_receive_data = λ bytes x.
          pure
            (some (record x { owner = record x.owner { response = x.owner.response ++ bytes } }));
      on_receive_shutdown =
          λ x. (do calls.on_response x.owner.handler x.owner.response; pure (some x));
      on_send_shutdown_ready = λ success x. pure (some x);
      on_reset = failed;
    }

  module _ (calls : RequestHandler) where
    -- delete this
    abbrev deleted : Owned ServerConn → M (Option (Owned ServerConn))
    deleted x = do BiDiConn.destroy E self x.conn; pure none

    abbrev shutdown_or_delete : Owned ServerConn → M (Option (Owned ServerConn))
    shutdown_or_delete x = do
      going_on ← BiDiConn.shutdown E self x.conn
      if going_on then pure (some x) else deleted x

    abbrev with_send_ready : Owned ServerConn → Owned ServerConn
    with_send_ready x = record x { owner = record x.owner { send_ready = true } }

    abbrev respond : Owned ServerConn → M (Option (Owned ServerConn))
    respond x = if x.owner.send_ready then shutdown_or_delete x else (do
      if no_bytes x.owner.response then pure tt else send_data E self x.owner.response x.conn
      pure (some (with_send_ready x)))

    abbrev answer : Owned ServerConn → M (Option (Owned ServerConn))
    answer x =
        if no_bytes x.owner.response
        then (if x.owner.send_ready then shutdown_or_delete x else pure (some (with_send_ready x)))
        else (do
          if x.owner.send_ready then send_data E self x.owner.response x.conn else pure tt
          pure (some x))

    abbrev request_complete : Owned ServerConn → M (Option (Owned ServerConn))
    request_complete x = do
      r ← calls.on_request x.owner.handler x.owner.request x.conn.host_
      answer (record x { owner = record x.owner { response = r } })

    -- The callbacks of SingleCycleServer::Conn
    unfoldable pub server_events : ConnHandler ServerConn
    server_events = record {
      on_contact_fail = deleted;
      on_send_ready = respond;
      on_receive_data = λ bytes x.
          pure (some (record x { owner = record x.owner { request = x.owner.request ++ bytes } }));
      on_receive_shutdown = request_complete;
      on_send_shutdown_ready = λ success x. deleted x;
      on_reset = deleted;
    }

  abbrev new_client : Pointer → Bytes → Client
  new_client handler request = record { handler = handler; request = request; response = [] }

  -- SingleCycleConn(endPoint, addr, service, request, handler)
  unfoldable pub client_of_address :
      Ref end_point → Ref address → ServiceId → Bytes → Pointer → Pointer → M (Owned Client)
  client_of_address end_point_ addr service request handler contact_self = do
    c ← of_address E self end_point_ addr service contact_self
    pure (record { owner = new_client handler request; conn = c })

  -- SingleCycleConn(h, service, request, handler)
  unfoldable pub client_of_host : Ref host → ServiceId → Bytes → Pointer → M (Owned Client)
  client_of_host h service request handler = do
    c ← of_host E self h service
    pure (record { owner = new_client handler request; conn = c })

  -- SingleCycleServer::Conn(server, h, stream)
  unfoldable pub new_conn : Pointer → Ref host → Ref in_stream → M (Owned ServerConn)
  new_conn handler h stream = do
    c ← of_stream E self h stream
    pure (record {
      owner = record { handler = handler; send_ready = false; request = []; response = [] };
      conn = c;
    })

  -- SingleCycleServer(ep, listenService, handler)
  unfoldable pub server_of_end_point : Ref end_point → ServiceId → Pointer → M SingleCycleServer
  server_of_end_point ep service handler = do
    own ← (class_of end_point).copy ep
    EndPoint.advertise E own service self
    pure (record {
      end_point_ = own;
      host_ = (class_of host).invalid;
      local_service = service;
      handler = handler;
    })

  -- SingleCycleServer(h, handler)
  unfoldable pub server_of_host : Ref host → Pointer → M SingleCycleServer
  server_of_host h handler = do
    own ← (class_of host).copy h
    service ← Host.listen E own self
    pure (record {
      end_point_ = (class_of end_point).invalid;
      host_ = own;
      local_service = service;
      handler = handler;
    })

  -- ~SingleCycleServer(), and the destructors of the fields
  unfoldable pub server_destroy : SingleCycleServer → M (Unit {0})
  server_destroy s = do
    if is_nonneg s.end_point_.handle
        then EndPoint.unadvertise E s.end_point_ s.local_service
        else pure tt
    if is_nonneg s.host_.handle then Host.unlisten E s.host_ s.local_service else pure tt
    (class_of host).destruct s.host_
    (class_of end_point).destruct s.end_point_

-- onConnect(host, stream) of a server that advertises, and onConnect(service, stream) of one that
-- listens, with the address of the new connection.
unfoldable pub server_on_connect :
    Engine → Pointer → Ref host → Ref in_stream → SingleCycleServer → M (Owned ServerConn)
server_on_connect E conn_self h stream s = new_conn E conn_self s.handler h stream

unfoldable pub server_on_listen :
    Engine → Pointer → ServiceId → Ref in_stream → SingleCycleServer → M (Owned ServerConn)
server_on_listen E conn_self service stream s = new_conn E conn_self s.handler s.host_ stream
