-- ===== src/Runtime/Handles.antt =====
-- The thirteen buckets under one name, and `bucketOps` of libcusp.sml.
use gocusp.Base.{Bool, List, Option, false, none, some, true}
use gocusp.IdBucket.{Bucket, alloc, free, replace, sub}
use gocusp.Ml.{Result, already_free, fail, minus_one, ok, raise, subscript, ℤ}
use gocusp.Runtime.Engine.{Obj}
use gocusp.Runtime.World.{M, World, exception, pure, returns, stops, ◌>>=◌}

pub data Kind : Type 0 where
  address end_point host host_iterator channel_iterator : Kind
  in_stream in_stream_iterator out_stream out_stream_iterator : Kind
  event abortable public_key private_key : Kind

-- What the SML side stores in each bucket. An iterator is the list of the values still to come.
abbrev pub Value : Kind → Type 0
Value host_iterator = List Obj
Value channel_iterator = List (Obj × Option Obj)
Value in_stream_iterator = List Obj
Value out_stream_iterator = List Obj
Value _ = Obj

-- A field of the world that holds a bucket.
pub record Slot (A : Type 0) : Type 0 where
  pub get : World → Bucket A
  pub put : World → Bucket A → World

abbrev pub slot : (k : Kind) → Slot (Value k)
slot address = record { get = λ w. w.address; put = λ w b. record w { address = b } }
slot end_point = record { get = λ w. w.end_point; put = λ w b. record w { end_point = b } }
slot host = record { get = λ w. w.host; put = λ w b. record w { host = b } }
slot host_iterator = record {
  get = λ w. w.host_iterator;
  put = λ w b. record w { host_iterator = b };
}
slot channel_iterator = record {
  get = λ w. w.channel_iterator;
  put = λ w b. record w { channel_iterator = b };
}
slot in_stream = record { get = λ w. w.in_stream; put = λ w b. record w { in_stream = b } }
slot in_stream_iterator = record {
  get = λ w. w.in_stream_iterator;
  put = λ w b. record w { in_stream_iterator = b };
}
slot out_stream = record { get = λ w. w.out_stream; put = λ w b. record w { out_stream = b } }
slot out_stream_iterator = record {
  get = λ w. w.out_stream_iterator;
  put = λ w b. record w { out_stream_iterator = b };
}
slot event = record { get = λ w. w.event; put = λ w b. record w { event = b } }
slot abortable = record { get = λ w. w.abortable; put = λ w b. record w { abortable = b } }
slot public_key = record { get = λ w. w.public_key; put = λ w b. record w { public_key = b } }
slot private_key = record { get = λ w. w.private_key; put = λ w b. record w { private_key = b } }

module _ (k : Kind) where
  abbrev store_bucket : {A : Type 0} → A → Result (Bucket (Value k)) → M A
  store_bucket a (ok b) w = returns a ((slot k).put w b)
  store_bucket a (raise e) w = stops (exception e)

  abbrev store_handle : Result (ℤ × Bucket (Value k)) → M ℤ
  store_handle (ok (h, b)) w = returns h ((slot k).put w b)
  store_handle (raise e) w = stops (exception e)

  abbrev found : Result (Option (Value k)) → M (Option (Value k))
  found (ok x) w = returns x w
  found (raise e) w = stops (exception e)

  -- IdBucket.sub (bucket, id)
  unfoldable pub bucket_sub : ℤ → M (Option (Value k))
  bucket_sub h w = found (sub ((slot k).get w) h) w

  -- IdBucket.alloc (bucket, x)
  unfoldable pub bucket_alloc : Value k → M ℤ
  bucket_alloc x w = store_handle (alloc ((slot k).get w) x) w

  -- IdBucket.replace (bucket, id, x)
  unfoldable pub bucket_replace : ℤ → Value k → M (Unit {0})
  bucket_replace h x w = store_bucket tt (replace ((slot k).get w) h x) w

  abbrev dup_found : Option (Value k) → M ℤ
  dup_found none = pure minus_one
  dup_found (some x) = bucket_alloc x

  -- `dup` of bucketOps
  unfoldable pub dup : ℤ → M ℤ
  dup h = do x ← bucket_sub h; dup_found x

  abbrev freed : Result (Bucket (Value k)) → M Bool
  freed (ok b) w = returns true ((slot k).put w b)
  freed (raise already_free) w = returns false w
  freed (raise subscript) w = stops (exception subscript)
  freed (raise fail) w = stops (exception fail)

  -- `free` of bucketOps: AlreadyFree is handled, Subscript is not.
  unfoldable pub release : ℤ → M Bool
  release h w = freed (free ((slot k).get w) h) w

  -- case IdBucket.sub (bucket, id) of SOME x => f x | NONE => y
  abbrev pub with_object : {A : Type 0} → ℤ → (Value k → M A) → A → M A
  with_object h f y = do found ← bucket_sub h; elim found [ none ↦ pure y | some x ↦ f x ]
