-- ===== src/Runtime/Exports/Iterators.antt =====
-- libcusp.sml: the iterators. Each is a bucket of lists of the values still to come.
use gocusp.Base.{Bool, List, Option, [], false, none, not, some, true, ◌∷◌}
use gocusp.Ml.{minus_one, ℤ}
use gocusp.Runtime.Engine.{Obj}
use gocusp.Runtime.Handles.{
  Kind, Value, address, bucket_alloc, bucket_replace, bucket_sub, channel_iterator, host,
  host_iterator, in_stream, in_stream_iterator, out_stream, out_stream_iterator, with_object,
}
use gocusp.Runtime.World.{M, pure, ◌>>=◌, ◌>>◌}

abbrev is_empty : {A : Type 0} → List A → Bool
is_empty [] = true
is_empty (x ∷ xs) = false

-- The iterator of a bucket `it` over objects of a bucket `k`.
unfoldable pub object_iterator_next :
    (it k : Kind) → (Value it → List Obj) → (List Obj → Value it) → (Obj → Value k) → ℤ → M ℤ
object_iterator_next it k items of_items of_obj h = do
  found ← bucket_sub it h
  elim found [
    | none ↦ pure minus_one
    | some v ↦ elim (items v) [
      | [] ↦ pure minus_one
      | x ∷ rest ↦ do bucket_replace it h (of_items rest); bucket_alloc k (of_obj x)
    ]
  ]

unfoldable pub cusp_host_iterator_has_next : ℤ → M Bool
cusp_host_iterator_has_next h = with_object host_iterator h (λ v. pure (not (is_empty v))) false

unfoldable pub cusp_host_iterator_next : ℤ → M ℤ
unfolding object_iterator_next
cusp_host_iterator_next = object_iterator_next host_iterator host (λ v. v) (λ v. v) (λ x. x)

unfoldable pub cusp_instream_iterator_has_next : ℤ → M Bool
cusp_instream_iterator_has_next h =
    with_object in_stream_iterator h (λ v. pure (not (is_empty v))) false

unfoldable pub cusp_instream_iterator_next : ℤ → M ℤ
unfolding object_iterator_next
cusp_instream_iterator_next =
    object_iterator_next in_stream_iterator in_stream (λ v. v) (λ v. v) (λ x. x)

unfoldable pub cusp_outstream_iterator_has_next : ℤ → M Bool
cusp_outstream_iterator_has_next h =
    with_object out_stream_iterator h (λ v. pure (not (is_empty v))) false

unfoldable pub cusp_outstream_iterator_next : ℤ → M ℤ
unfolding object_iterator_next
cusp_outstream_iterator_next =
    object_iterator_next out_stream_iterator out_stream (λ v. v) (λ v. v) (λ x. x)

unfoldable pub cusp_channel_iterator_has_next : ℤ → M Bool
cusp_channel_iterator_has_next h =
    with_object channel_iterator h (λ v. pure (not (is_empty v))) false

abbrev host_handle : Option Obj → M ℤ
host_handle none = pure minus_one
host_handle (some x) = bucket_alloc host x

-- The handle of the address, and the value written through the pointer to the host's handle, which
-- is not written when there is no next channel.
unfoldable pub cusp_channel_iterator_next : ℤ → M (ℤ × Option ℤ)
cusp_channel_iterator_next h = do
  found ← bucket_sub channel_iterator h
  elim found [
    | none ↦ pure (minus_one, none)
    | some v ↦ elim v [
      | [] ↦ pure (minus_one, none)
      | c ∷ rest ↦ do
        bucket_replace channel_iterator h rest
        host_h ← host_handle c.1
        addr_h ← bucket_alloc address c.0
        pure (addr_h, some host_h)
    ]
  ]
