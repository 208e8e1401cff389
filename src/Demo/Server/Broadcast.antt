-- ===== src/Demo/Server/Broadcast.antt =====
-- server.cpp: Server::broadcastMessage over connections that are ready.
use gocusp.Cusp.OutStream
use gocusp.Base.{List, [], false, some, true, ℕ, ◌==◌, ◌∷◌, ◌≡◌}
use gocusp.Cusp.Ref.{ref}
use gocusp.Demo.Server.{Connection}
use gocusp.IdBucket.{Bucket}
use gocusp.IdBucket.View.{contents}
use gocusp.Ml.{pos}
use gocusp.Runtime.Engine.{Bytes, Engine, Log, Obj, Pointer, out_stream_write}
use gocusp.Runtime.Handles.{out_stream}
use gocusp.Runtime.World.{World}

abbrev pub addresses : List Connection → List Pointer
addresses [] = []
addresses (c ∷ cs) = c.self ∷ addresses cs

abbrev pub not_ready : List Connection → List Connection
not_ready [] = []
not_ready (c ∷ cs) = record c { ready = false } ∷ not_ready cs

-- The calls so far, with a write of `bytes` to each stream by its connection.
abbrev pub write_log : Bytes → List Connection → List ℕ → Log → Log
write_log bytes (c ∷ cs) (s ∷ ss) l = write_log bytes cs ss (out_stream_write s bytes c.self ∷ l)
write_log bytes _ _ l = l

-- No connection of the list is at `p`.
abbrev pub Elsewhere : Pointer → List Connection → Type 0
Elsewhere p [] = Unit {0}
Elsewhere p (c ∷ cs) = ((c.self == p) ≡ false) × Elsewhere p cs

-- Each connection is ready, its out stream is open under a handle of the stream beside it, and its
-- address is not null and its own.
abbrev pub AllReady : Bucket Obj → List Connection → List Obj → Type 0
AllReady streams [] [] = Unit {0}
AllReady streams (c ∷ cs) (s ∷ ss) =
    ((c.ready ≡ true)
      × ((c.self == 0) ≡ false)
      × ((h : ℕ) × (c.os ≡ ref out_stream (pos h)) × (contents streams h ≡ some s))
      × Elsewhere c.self cs)
    × AllReady streams cs ss
AllReady streams _ _ = ⊥

abbrev AllElsewhere : List Connection → List Connection → Type 0
AllElsewhere [] before = Unit {0}
AllElsewhere (c ∷ cs) before = Elsewhere c.self before × AllElsewhere cs before
