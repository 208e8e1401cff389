-- ===== src/Cusp/Behaviour/Exhausted.antt =====
-- cusp.cpp: hasNext and next of the iterators once no value is left.
use gocusp.Base.{[], false, inl, inr, none, refl, some, ℕ, ◌≡◌, ◌⊎◌}
use gocusp.Cusp.Classes.{address_class, class_of, host_class}
use gocusp.Cusp.Iterators.{
  channel_iterator_has_next, channel_iterator_next, host_iterator_has_next, host_iterator_next,
  in_stream_iterator_has_next, in_stream_iterator_next, out_stream_iterator_has_next,
  out_stream_iterator_next,
}
use gocusp.Cusp.Lifecycle.{bucket_sub-returns, object_at}
use gocusp.Cusp.Lifecycle.Copy.{copy_unused}
use gocusp.Cusp.Ref.{handle_class, ref}
use gocusp.Ml.{minus_one, pos, subscript}
use gocusp.Runtime.Exports.Iterators.{
  cusp_channel_iterator_has_next, cusp_channel_iterator_next, cusp_host_iterator_has_next,
  cusp_host_iterator_next, cusp_instream_iterator_has_next, cusp_instream_iterator_next,
  cusp_outstream_iterator_has_next, cusp_outstream_iterator_next, object_iterator_next,
}
use gocusp.Runtime.Handles.{
  address, channel_iterator, host, host_iterator, in_stream, in_stream_iterator, out_stream,
  out_stream_iterator,
}
use gocusp.Runtime.World.{World, assertion, exception, returns, stops}

no_address :
    (w : World) → address_class.copy (ref address minus_one) w ≡ returns (ref address minus_one) w
unfolding address_class handle_class
no_address w = refl

host_copy_unused :
    (w : World) (h : ℕ)
    → object_at host w h ≡ none
    → (host_class.copy (ref host (pos h)) w ≡ stops assertion)
      ⊎ (host_class.copy (ref host (pos h)) w ≡ stops (exception subscript))
unfolding class_of
host_copy_unused w h e = copy_unused host w h e

module _ (w : World) (i : ℕ) where
  pub host_exhausted :
      object_at host_iterator w i ≡ some []
      → (host_iterator_has_next (ref host_iterator (pos i)) w ≡ returns false w)
        × (host_iterator_next (ref host_iterator (pos i)) w ≡ returns (ref host minus_one) w)
  unfolding host_iterator_has_next cusp_host_iterator_has_next host_iterator_next
      cusp_host_iterator_next object_iterator_next
  host_exhausted e =
      let found = bucket_sub-returns host_iterator w i [] e in (rw found refl, rw found refl)

  in_stream_exhausted :
      object_at in_stream_iterator w i ≡ some []
      → (in_stream_iterator_has_next (ref in_stream_iterator (pos i)) w ≡ returns false w)
        × (in_stream_iterator_next (ref in_stream_iterator (pos i)) w
            ≡ returns (ref in_stream minus_one) w)
  unfolding in_stream_iterator_has_next cusp_instream_iterator_has_next in_stream_iterator_next
      cusp_instream_iterator_next object_iterator_next
  in_stream_exhausted e =
      let found = bucket_sub-returns in_stream_iterator w i [] e in (rw found refl, rw found refl)

  out_stream_exhausted :
      object_at out_stream_iterator w i ≡ some []
      → (out_stream_iterator_has_next (ref out_stream_iterator (pos i)) w ≡ returns false w)
        × (out_stream_iterator_next (ref out_stream_iterator (pos i)) w
            ≡ returns (ref out_stream minus_one) w)
  unfolding out_stream_iterator_has_next cusp_outstream_iterator_has_next out_stream_iterator_next
      cusp_outstream_iterator_next object_iterator_next
  out_stream_exhausted e =
      let found = bucket_sub-returns out_stream_iterator w i [] e in (rw found refl, rw found refl)

  -- Once no value is left in a channel iterator whose handle is in use, `hasNext` does not
  -- hold, and `next` ends the process, at an assertion or on Subscript, if what the
  -- uninitialised variable for the host's handle holds is not negative and not a host handle
  -- in use.
  pub channel_garbage :
      (garbage : ℕ)
      → object_at channel_iterator w i ≡ some []
      → object_at host w garbage ≡ none
      → (channel_iterator_has_next (ref channel_iterator (pos i)) w ≡ returns false w)
        × ((channel_iterator_next (pos garbage) (ref channel_iterator (pos i)) w ≡ stops assertion)
            ⊎ (channel_iterator_next (pos garbage) (ref channel_iterator (pos i)) w
                ≡ stops (exception subscript)))
  unfolding channel_iterator_has_next cusp_channel_iterator_has_next channel_iterator_next
      cusp_channel_iterator_next
  channel_garbage garbage e unused =
      let found = bucket_sub-returns channel_iterator w i [] e in
      (
        rw found refl,
        elim (host_copy_unused w garbage unused) [
          | inl f ↦ inl (rw (found) (rw (no_address w, f) refl))
          | inr f ↦ inr (rw (found) (rw (no_address w, f) refl))
        ],
      )

-- Once no value is left in a host iterator, an in stream iterator and an out stream iterator
-- whose handles are in use, `hasNext` does not hold, `next` returns an invalid object, and
-- nothing changes.
pub exhausted_iterators :
    (w : World) (ih ii io : ℕ)
    → object_at host_iterator w ih ≡ some []
    → object_at in_stream_iterator w ii ≡ some []
    → object_at out_stream_iterator w io ≡ some []
    → ((host_iterator_has_next (ref host_iterator (pos ih)) w ≡ returns false w)
        × (host_iterator_next (ref host_iterator (pos ih)) w ≡ returns (ref host minus_one) w))
      × ((in_stream_iterator_has_next (ref in_stream_iterator (pos ii)) w ≡ returns false w)
          × (in_stream_iterator_next (ref in_stream_iterator (pos ii)) w
              ≡ returns (ref in_stream minus_one) w))
      × ((out_stream_iterator_has_next (ref out_stream_iterator (pos io)) w ≡ returns false w)
          × (out_stream_iterator_next (ref out_stream_iterator (pos io)) w
              ≡ returns (ref out_stream minus_one) w))
exhausted_iterators w ih ii io eh ei eo =
    (host_exhausted w ih eh, in_stream_exhausted w ii ei, out_stream_exhausted w io eo)
