-- ===== src/Runtime/World.antt =====
-- The state on the SML side, and the monad of calls into it. A failed C++ assertion and an
-- exception that no SML handler catches end the process.
use gocusp.Base.{Bool, List, Option, [], false, if◌then◌else◌, true, ◌∷◌}
use gocusp.IdBucket.{Bucket, new}
use gocusp.Ml.{Exn}
use gocusp.Runtime.Engine.{Call, Engine, Log, Obj}

pub record World : Type 0 where
  pub address : Bucket Obj
  pub end_point : Bucket Obj
  pub host : Bucket Obj
  pub host_iterator : Bucket (List Obj)
  pub channel_iterator : Bucket (List (Obj × Option Obj))
  pub in_stream : Bucket Obj
  pub in_stream_iterator : Bucket (List Obj)
  pub out_stream : Bucket Obj
  pub out_stream_iterator : Bucket (List Obj)
  pub event : Bucket Obj
  pub abortable : Bucket Obj
  pub public_key : Bucket Obj
  pub private_key : Bucket Obj
  pub log : Log

-- The world in which libcusp.sml starts.
unfoldable pub start : World
start = record {
  address = new;
  end_point = new;
  host = new;
  host_iterator = new;
  channel_iterator = new;
  in_stream = new;
  in_stream_iterator = new;
  out_stream = new;
  out_stream_iterator = new;
  event = new;
  abortable = new;
  public_key = new;
  private_key = new;
  log = [];
}

pub data Fault : Type 0 where
  assertion : Fault
  exception : Exn → Fault
  engine_exception : Fault
  -- An access outside of the allocated memory.
  memory_fault : Fault

pub data Run (A : Type 0) : Type 0 where
  returns : A → World → Run A
  stops : Fault → Run A

abbrev pub M : Type 0 → Type 0
M A = World → Run A

abbrev pub pure : {A : Type 0} → A → M A
pure a w = returns a w

abbrev pub stop : {A : Type 0} → Fault → M A
stop e w = stops e

module _ {A B : Type 0} where
  abbrev pub and_then : Run A → (A → M B) → Run B
  and_then (returns a w) k = k a w
  and_then (stops e) k = stops e

  infixl 5 ◌>>=◌ ◌>>◌
  abbrev pub ◌>>=◌ : M A → (A → M B) → M B
  ◌>>=◌ m f w = and_then (m w) f

  abbrev pub ◌>>◌ : M A → M B → M B
  ◌>>◌ m k w = and_then (m w) (λ _. k)

-- `assert(b)`, with assertions compiled in.
abbrev pub check : Bool → M (Unit {0})
check true = pure tt
check false = stop assertion

module _ (E : Engine) where
  -- An engine call: it goes into the log, and its answer may depend on the log before it.
  abbrev pub perform : {A : Type 0} → (Log → Call → A) → Call → M A
  perform answer c w =
      if E.raises w.log c
      then stops engine_exception
      else returns (answer w.log c) (record w { log = c ∷ w.log })

  -- An engine call whose result is ignored.
  abbrev pub perform_unit : Call → M (Unit {0})
  perform_unit = perform (λ _ _. tt)
