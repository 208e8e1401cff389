-- ===== src/Util/BiDiConn/Aborted.antt =====
-- abortablecontacthandler.cpp and bidiconn.cpp: a contact that is given up.
use gocusp.Util.AbortableContactHandler
use gocusp.Base.{refl, ◌≡◌}
use gocusp.Cusp.Classes.{class_of}
use gocusp.Cusp.Lifecycle.{class_of-eq}
use gocusp.Cusp.Ref.{Ref, handle_class, ref}
use gocusp.Ml.{minus_one}
use gocusp.Runtime.Engine.{Engine, Pointer, ServiceId}
use gocusp.Runtime.Handles.{Kind, host, in_stream, out_stream}
use gocusp.Runtime.World.{World, memory_fault, stops, ◌>>=◌}
use gocusp.Util.AbortableContactHandler.{AbortableContactHandler, abort, delete}
use gocusp.Util.BiDiConn.{contacted, reset, waiting_for_contact}

invalid_handle : (k : Kind) → (class_of k).invalid ≡ ref k minus_one
unfolding handle_class
invalid_handle k = rw (class_of-eq k) refl

-- When a connection that waits for the library to contact an address is reset, the contact
-- handler that the library still calls is deleted: the callback is a memory fault, whatever host
-- and stream come with it.
pub reset_while_contacting :
    (E : Engine) (self : Pointer) (service : ServiceId) (h : Ref host) (stream : Ref out_stream)
    (w : World)
    → (do c ← reset E self (waiting_for_contact E self service); contacted E self h stream c) w
      ≡ stops memory_fault
unfolding reset contacted AbortableContactHandler.on_contact AbortableContactHandler.create abort
    delete
reset_while_contacting E self service h stream w =
    rw (invalid_handle in_stream, invalid_handle out_stream) refl
