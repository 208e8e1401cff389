-- ===== src/Tests/Requests.antt =====
-- SingleCycleConn::request on a small response.
use gocusp.Base.{Bool, [], false, not, refl, ◌∷◌, ◌≡◌}
use gocusp.Cusp.Ref.{ref}
use gocusp.Ml.{pos}
use gocusp.Runtime.Engine.{Call, Engine, Log, host_unlisten}
use gocusp.Runtime.Handles.{host}
use gocusp.Runtime.World.{engine_exception, stops}
use gocusp.Tests.Samples.{busy, calm_engine, two_used-IsValid}
use gocusp.Util.SingleCycle.Blocking.{gone, request_of_host}
use gocusp.Util.SingleCycle.Opening.{is_unlisten}
use gocusp.Util.SingleCycle.Reset.{listens, reset_stops}

-- An engine that raises an exception on an unlisten of what it does not listen at.
abbrev table_raises : Log → Call → Bool
table_raises l (host_unlisten x service) = not (listens x service l)
table_raises l c = false

abbrev table_engine : Engine
table_engine = record calm_engine { raises = table_raises }

table_engine_quiet : (l : Log) (c : Call) → is_unlisten c ≡ false → table_raises l c ≡ false
table_engine_quiet l (host_unlisten x service) e = cc
table_engine_quiet l c e = refl

reset_stops_example :
    request_of_host table_engine 4 (ref host (pos 3)) 80 (1 ∷ 2 ∷ []) 6 (gone ∷ []) busy
    ≡ stops engine_exception
reset_stops_example =
    reset_stops table_engine table_engine_quiet 4 refl 10 80 3 (λ l. refl) refl (λ l. refl) busy 3
      (1 ∷ 2 ∷ []) 6 refl two_used-IsValid two_used-IsValid
