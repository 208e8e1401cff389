-- ===== src/Util/SingleMessage.antt =====
-- cbindings/util/singlemessageinstream.cpp and singlemessageoutstream.cpp: one message over a stream.
-- `self` is the address of the object, which it passes to the library as a handler.
pub mod Exchange
use gocusp.Cusp.Host
use gocusp.Cusp.InStream
use gocusp.Cusp.OutStream
use gocusp.Base.{Bool, [], false, if◌then◌else◌, ℕ, ◌%◌, ◌++◌, ◌==◌, ◌^◌}
use gocusp.Cusp.Classes.{class_of}
use gocusp.Cusp.EndPoint.{assert_pointer}
use gocusp.Cusp.Ref.{Ref}
use gocusp.Ml.{minus_one}
use gocusp.Runtime.Engine.{Bytes, Engine, Pointer, ServiceId}
use gocusp.Runtime.Handles.{host, in_stream, out_stream}
use gocusp.Runtime.World.{M, pure, ◌>>=◌, ◌>>◌}

pub record MessageHandler : Type 0 where
  pub on_message : Pointer → (stream : Pointer) → Bytes → M (Unit {0})
  pub on_message_reset : Pointer → (stream : Pointer) → M (Unit {0})

pub record SentHandler : Type 0 where
  pub on_message_sent : Pointer → (stream : Pointer) → Bool → M (Unit {0})

pub record SingleMessageInStream : Type 0 where
  pub is : Ref in_stream
  pub handler : Pointer
  pub buffer : Bytes

pub record SingleMessageOutStream : Type 0 where
  pub os : Ref out_stream
  pub handler : Pointer

module _ (E : Engine) (self : Pointer) where
  -- SingleMessageInStream(is, handler)
  unfoldable pub receiver : Ref in_stream → Pointer → M SingleMessageInStream
  receiver stream handler = do
    own ← (class_of in_stream).copy stream
    assert_pointer handler
    InStream.read E own self minus_one
    pure (record { is = own; handler = handler; buffer = [] })

  -- ~SingleMessageInStream()
  unfoldable pub receiver_destroy : SingleMessageInStream → M (Unit {0})
  receiver_destroy r = do InStream.reset E r.is; (class_of in_stream).destruct r.is

  -- onReceive, onShutdown and onReset of SingleMessageInStream
  unfoldable pub receiver_on_receive : Bytes → SingleMessageInStream → M SingleMessageInStream
  receiver_on_receive bytes r = pure (record r { buffer = r.buffer ++ bytes })

  unfoldable pub receiver_on_shutdown : MessageHandler → SingleMessageInStream → M (Unit {0})
  receiver_on_shutdown calls r = calls.on_message r.handler self r.buffer

  unfoldable pub receiver_on_reset : MessageHandler → SingleMessageInStream → M (Unit {0})
  receiver_on_reset calls r = calls.on_message_reset r.handler self

  -- SingleMessageOutStream(os, msg, handler)
  unfoldable pub sender : Ref out_stream → Bytes → Pointer → M SingleMessageOutStream
  sender stream msg handler = do
    own ← (class_of out_stream).copy stream
    assert_pointer handler
    OutStream.write E own msg self
    pure (record { os = own; handler = handler })

  -- SingleMessageOutStream(host, service, msg, handler, priority): a priority is the bit pattern of
  -- a float, which compares equal to 0 when all bits but the sign are clear.
  unfoldable pub sender_to :
      Ref host → ServiceId → Bytes → Pointer → (priority : ℕ) → M SingleMessageOutStream
  sender_to h service msg handler priority = do
    assert_pointer handler
    stream ← Host.connect E h service
    own ← (class_of out_stream).assign (class_of out_stream).invalid stream
    (class_of out_stream).destruct stream
    if priority % 2 ^ 31 == 0 then pure tt else OutStream.set_priority E own priority
    OutStream.write E own msg self
    pure (record { os = own; handler = handler })

  -- ~SingleMessageOutStream()
  unfoldable pub sender_destroy : SingleMessageOutStream → M (Unit {0})
  sender_destroy s = do OutStream.reset E s.os; (class_of out_stream).destruct s.os

  -- onReady, onReset and onShutdown of SingleMessageOutStream
  unfoldable pub sender_on_ready : SingleMessageOutStream → M (Unit {0})
  sender_on_ready s = OutStream.shutdown E s.os self

  unfoldable pub sender_on_reset : SentHandler → SingleMessageOutStream → M (Unit {0})
  sender_on_reset calls s = calls.on_message_sent s.handler self false

  unfoldable pub sender_on_shutdown : SentHandler → Bool → SingleMessageOutStream → M (Unit {0})
  sender_on_shutdown calls success s = calls.on_message_sent s.handler self success
