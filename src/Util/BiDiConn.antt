-- ===== src/Util/BiDiConn.antt =====
-- cbindings/util/bidiconn.cpp: a connection of two streams. `self` is the address of the object, which
-- it passes to the library as a handler; a callback of the library is a call of its own. What the
-- object's own handler does is a parameter: it works on the object that owns the connection, of type
-- `C`, and on the connection, and may delete both. Machine numbers are stored with the lowest byte
-- first.
pub mod Aborted
pub mod ConnectBack
use gocusp.Cusp.EndPoint
use gocusp.Cusp.Host
use gocusp.Cusp.InStream
use gocusp.Cusp.OutStream
use gocusp.Util.AbortableContactHandler
use gocusp.Base.{
  Bool, Option, [], drop, false, if◌then◌else◌, leb, length, ltb, none, not, some, true, ◌%◌, ◌*◌,
  ◌+◌, ◌/◌, ◌==◌, ◌∷◌,
}
use gocusp.Cusp.Classes.{class_of}
use gocusp.Cusp.EndPoint.{contact}
use gocusp.Cusp.Ref.{Ref}
use gocusp.Ml.{is_nonneg, minus_one}
use gocusp.Runtime.Engine.{Bytes, Engine, Pointer, ServiceId}
use gocusp.Runtime.Handles.{abortable, address, end_point, host, in_stream, out_stream}
use gocusp.Runtime.World.{M, check, memory_fault, pure, stop, ◌>>=◌, ◌>>◌}
use gocusp.Util.AbortableContactHandler.{AbortableContactHandler, delete, on_contact_fail}

-- The fields of the class, with the contact handler on the heap that the field points to.
pub record BiDiConn : Type 0 where
  pub remote_service : ServiceId
  pub local_service : ServiceId
  pub host_ : Ref host
  pub is : Ref in_stream
  pub os : Ref out_stream
  -- Whether the pointer contactHandler is set.
  pub contact_set : Bool
  pub contact : Option AbortableContactHandler

-- A connection with its owner.
pub record Owned (C : Type 0) : Type 0 where
  pub owner : C
  pub conn : BiDiConn

-- BiDiConn::Handler. A callback that leaves nothing has deleted the connection.
pub record ConnHandler (C : Type 0) : Type 0 where
  pub on_contact_fail : Owned C → M (Option (Owned C))
  pub on_send_ready : Owned C → M (Option (Owned C))
  pub on_receive_data : Bytes → Owned C → M (Option (Owned C))
  pub on_receive_shutdown : Owned C → M (Option (Owned C))
  pub on_send_shutdown_ready : Bool → Owned C → M (Option (Owned C))
  pub on_reset : Owned C → M (Option (Owned C))

-- The rest of a method, which needs the object.
abbrev pub still_there :
    {C : Type 0} → Option (Owned C) → (Owned C → M (Option (Owned C))) → M (Option (Owned C))
still_there none k = stop memory_fault
still_there (some x) k = k x

-- A ServiceId in memory, and back.
abbrev pub service_bytes : ServiceId → Bytes
service_bytes s = s % 256 ∷ s / 256 % 256 ∷ []

abbrev pub bytes_service : Bytes → ServiceId
bytes_service (lo ∷ hi ∷ rest) = lo + 256 * hi
bytes_service _ = 0

module _ (E : Engine) (self : Pointer) where
  -- The contact handler is aborted before it is deleted.
  abbrev drop_contact : BiDiConn → M BiDiConn
  drop_contact c =
      if c.contact_set
      then (do
        silent ← AbortableContactHandler.abort c.contact
        gone ← delete silent
        pure (record c { contact_set = false; contact = gone }))
      else pure c

  unfoldable pub reset : BiDiConn → M BiDiConn
  reset c = do
    c1 ← drop_contact c
    if c1.local_service == 0 then pure tt else Host.unlisten E c1.host_ c1.local_service
    if is_nonneg c1.is.handle then InStream.reset E c1.is else pure tt
    if is_nonneg c1.os.handle then OutStream.reset E c1.os else pure tt
    pure c1

  -- ~BiDiConn(), and the destructors of the fields, the last one first
  unfoldable pub destroy : BiDiConn → M (Unit {0})
  unfolding reset
  destroy c = do
    c1 ← reset c
    (class_of out_stream).destruct c1.os
    (class_of in_stream).destruct c1.is
    (class_of host).destruct c1.host_

  unfoldable pub send_data : Bytes → BiDiConn → M (Unit {0})
  send_data bytes c = do check (is_nonneg c.os.handle); OutStream.write E c.os bytes self

  unfoldable pub shutdown : BiDiConn → M Bool
  shutdown c =
      if is_nonneg c.os.handle then (do OutStream.shutdown E c.os self; pure true) else pure false

  -- The parameter `h` hides the field, which is not set.
  unfoldable pub on_contact : Ref host → Ref out_stream → BiDiConn → M BiDiConn
  on_contact h stream c = do
    os ← (class_of out_stream).assign c.os stream
    service ← Host.listen E h self
    OutStream.write E os (service_bytes service) self
    pure (record c { contact_set = false; os = os; local_service = service })

  -- The library calls the contact handler on the heap, which calls the connection.
  unfoldable pub contacted : Ref host → Ref out_stream → BiDiConn → M BiDiConn
  unfolding on_contact
  contacted h stream c = do
    (left, c1) ← AbortableContactHandler.on_contact (λ p. on_contact h stream) c.contact c
    pure (record c1 { contact = left })

  -- The fields of a connection that waits for the library to contact an address.
  abbrev pub waiting_for_contact : ServiceId → BiDiConn
  waiting_for_contact service = record {
    remote_service = service;
    local_service = 0;
    host_ = (class_of host).invalid;
    is = (class_of in_stream).invalid;
    os = (class_of out_stream).invalid;
    contact_set = true;
    contact = AbortableContactHandler.create self;
  }

  -- BiDiConn(endPoint, addr, service, handler), where the new contact handler is at `contact_self`
  unfoldable pub of_address :
      Ref end_point → Ref address → ServiceId → (contact_self : Pointer) → M BiDiConn
  of_address end_point_ addr service contact_self = do
    a ← EndPoint.contact E end_point_ addr service contact_self
    (class_of abortable).destruct a
    pure (waiting_for_contact service)

  -- BiDiConn(h, service, handler)
  unfoldable pub of_host : Ref host → ServiceId → M BiDiConn
  unfolding on_contact
  of_host h service = do
    own ← (class_of host).copy h
    stream ← Host.connect E own service
    c ← on_contact own stream (record {
      remote_service = service;
      local_service = 0;
      host_ = own;
      is = (class_of in_stream).invalid;
      os = (class_of out_stream).invalid;
      contact_set = false;
      contact = none;
    })
    (class_of out_stream).destruct stream
    pure c

  -- BiDiConn(h, inStream, handler)
  unfoldable pub of_stream : Ref host → Ref in_stream → M BiDiConn
  of_stream h stream = do
    own ← (class_of host).copy h
    is ← (class_of in_stream).copy stream
    InStream.read E is self minus_one
    pure (record {
      remote_service = 0;
      local_service = 0;
      host_ = own;
      is = is;
      os = (class_of out_stream).invalid;
      contact_set = false;
      contact = none;
    })

  -- onConnect(service, stream)
  unfoldable pub on_connect : ServiceId → Ref in_stream → BiDiConn → M BiDiConn
  on_connect service stream c = do
    check (service == c.local_service)
    check (not (is_nonneg c.is.handle))
    Host.unlisten E c.host_ c.local_service
    is ← (class_of in_stream).assign c.is stream
    InStream.read E is self minus_one
    pure (record c { local_service = 0; is = is })

  module _ {C : Type 0} (handler : ConnHandler C) where
    abbrev read_again : Owned C → M (Option (Owned C))
    read_again x = do InStream.read E x.conn.is self minus_one; pure (some x)

    -- The first bytes that the server's side receives name the service to connect back to.
    abbrev connect_back : Bytes → Owned C → M (Option (Owned C))
    connect_back bytes x = do
      check (leb 2 (length bytes))
      check (is_nonneg x.conn.host_.handle)
      let service = bytes_service bytes
      stream ← Host.connect E x.conn.host_ service
      os ← (class_of out_stream).assign x.conn.os stream
      (class_of out_stream).destruct stream
      ready ←
          handler.on_send_ready
            (record x { conn = record x.conn { remote_service = service; os = os } })
      still_there ready (λ x1.
          if ltb 2 (length bytes)
          then handler.on_receive_data (drop 2 bytes) x1
          else pure (some x1))

    unfoldable pub on_receive : Bytes → Owned C → M (Option (Owned C))
    on_receive bytes x = do
      check (is_nonneg x.conn.is.handle)
      handled ←
          if is_nonneg x.conn.os.handle
          then handler.on_receive_data bytes x
          else connect_back bytes x
      still_there handled read_again

    unfoldable pub contact_failed : Owned C → M (Option (Owned C))
    contact_failed x =
        handler.on_contact_fail (record x { conn = record x.conn { contact_set = false } })

    -- onShutdown(), onShutdown(success), onReset() and onReady() pass their callback on.
    unfoldable pub on_shutdown : Owned C → M (Option (Owned C))
    on_shutdown x = handler.on_receive_shutdown x

    unfoldable pub on_shutdown_done : Bool → Owned C → M (Option (Owned C))
    on_shutdown_done success x = handler.on_send_shutdown_ready success x

    unfoldable pub on_reset : Owned C → M (Option (Owned C))
    on_reset x = handler.on_reset x

    unfoldable pub on_ready : Owned C → M (Option (Owned C))
    on_ready x = handler.on_send_ready x
