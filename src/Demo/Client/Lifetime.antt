-- ===== src/Demo/Client/Lifetime.antt =====
-- client.cpp: Client::~Client, from any state of the client.
use gocusp.Cusp.OutStream
use gocusp.Base.{Option, false, if◌then◌else◌, none, refl, some, true, ℕ, ◌∷◌, ◌≡◌}
use gocusp.Cusp.Lifecycle.{IsValidAt, object_at}
use gocusp.Cusp.Lifecycle.Clear.{Stands, assign_invalid, holds}
use gocusp.Cusp.Ref.{Ref, ref}
use gocusp.Demo.Client.{Client, on_event, on_shutdown_done}
use gocusp.IdBucket.{Bucket}
use gocusp.IdBucket.View.{contents}
use gocusp.Ml.{minus_one, negsuc, pos}
use gocusp.Runtime.Engine.{Call, Engine, Log, Obj, Pointer, in_stream_reset, out_stream_reset}
use gocusp.Runtime.Handles.{Kind, Value, end_point, event, host, in_stream, out_stream, slot}
use gocusp.Runtime.World.{Run, World, assertion, returns, stops}

-- The client without any handle.
abbrev pub closed : Client
closed = record {
  event = ref event minus_one;
  ep = ref end_point minus_one;
  host = ref host minus_one;
  is = ref in_stream minus_one;
  os = ref out_stream minus_one;
}

-- Each object of the client has no handle, or one in use, and the free lists of the five buckets
-- link exactly their free cells.
pub record IsSound (c : Client) (w : World) : Type 0 where
  pub events : IsValidAt event w × Stands event w c.event
  pub end_points : IsValidAt end_point w × Stands end_point w c.ep
  pub hosts : IsValidAt host w × Stands host w c.host
  pub in_streams : IsValidAt in_stream w × Stands in_stream w c.is
  pub out_streams : IsValidAt out_stream w × Stands out_stream w c.os

-- The log with a reset of the stream, as far as the object has a handle.
abbrev pub reset_log : {k : Kind} (call : Value k → Call) → World → Ref k → Log → Log
reset_log {k} call w r l = elim r.handle [
  | pos h ↦ elim (object_at k w h) [ none ↦ l | some x ↦ call x ∷ l ]
  | negsuc n ↦ l
]

abbrev pub freed : (k : Kind) → World → Ref k → ℕ → Option (Value k)
freed k w r j = if holds r j then none else object_at k w j

pub record Destroyed (c : Client) (w : World) (run : Run Client) : Type 0 where
  pub after : World
  pub returned : run ≡ returns closed after
  pub events : (j : ℕ) → object_at event after j ≡ freed event w c.event j
  pub end_points : (j : ℕ) → object_at end_point after j ≡ freed end_point w c.ep j
  pub hosts : (j : ℕ) → object_at host after j ≡ freed host w c.host j
  pub in_streams : (j : ℕ) → object_at in_stream after j ≡ freed in_stream w c.is j
  pub out_streams : (j : ℕ) → object_at out_stream after j ≡ freed out_stream w c.os j
  pub only : after ≡ (record w {
    event = after.event;
    end_point = after.end_point;
    host = after.host;
    in_stream = after.in_stream;
    out_stream = after.out_stream;
    log = reset_log out_stream_reset w c.os (reset_log in_stream_reset w c.is w.log);
  })

module _ (E : Engine) (self : Pointer)
    (resets_in : (l : Log) (s : Obj) → E.raises l (in_stream_reset s) ≡ false)
    (resets_out : (l : Log) (s : Obj) → E.raises l (out_stream_reset s) ≡ false) where
  record Closed (k : Kind) (call : Value k → Call) (w : World) (r : Ref k) (run : Run (Ref k))
      : Type 0 where
    bucket : Bucket (Value k)
    returned :
        run
        ≡ returns
            (ref k minus_one)
            ((slot k).put (record w { log = reset_log call w r w.log }) bucket)
    objects : (j : ℕ) → contents bucket j ≡ freed k w r j

-- What the callback of a successful shutdown leaves of the client's timer.
pub record TimerLeft (E : Engine) (self : Pointer) (c : Client) (w : World) : Type 0 where
  pub after : World
  pub bucket : Bucket Obj
  pub os : Ref out_stream
  pub returned : on_shutdown_done E self true c w ≡ returns (record c { os = os }) after
  pub only : after ≡ record w { out_stream = bucket }
  pub stopped : (v : World) → on_event E self (record c { os = os }) v ≡ stops assertion

-- When the demo client's out stream has shut down with success, with a handle in use or none,
-- onShutdown leaves the timer alone and the client without an out stream; when the timer that it
-- had set expires after that, onEvent ends the process at the assertion in `write`.
pub timer_after_shutdown :
    (E : Engine) (self : Pointer) (c : Client) (w : World)
    → IsValidAt out_stream w
    → Stands out_stream w c.os
    → TimerLeft E self c w
unfolding on_shutdown_done on_event OutStream.write
timer_after_shutdown E self c w v st =
    let a = assign_invalid out_stream w c.os v st in
    record {
      after = record w { out_stream = a.bucket };
      bucket = a.bucket;
      os = ref out_stream minus_one;
      returned = rw a.returned refl;
      only = refl;
      stopped = λ u. refl;
    }
