-- ===== src/Cusp/Behaviour/Iteration.antt =====
-- cusp.cpp: hasNext and next of the iterators over values that are left.
use gocusp.Base.{List, if◌then◌else◌, none, refl, some, true, ℕ, ◌==◌, ◌∷◌, ◌≡◌}
use gocusp.Cusp.Iterators.{host_iterator_has_next, host_iterator_next}
use gocusp.Cusp.Lifecycle.{IsValidAt, bucket_alloc-returns, bucket_sub-returns, get-put, object_at}
use gocusp.Cusp.Ref.{Ref, ref, ref_or_invalid}
use gocusp.IdBucket.{Bucket}
use gocusp.IdBucket.Alloc.{alloc-Allocated}
use gocusp.IdBucket.Replace.{replace-Replaced}
use gocusp.Ml.{pos}
use gocusp.Runtime.Engine.{Obj}
use gocusp.Runtime.Exports.Iterators.{
  cusp_host_iterator_has_next, cusp_host_iterator_next, object_iterator_next,
}
use gocusp.Runtime.Handles.{Kind, Value, bucket_replace, host, host_iterator, slot}
use gocusp.Runtime.World.{Run, World, returns, ◌>>=◌}

-- `next` of the iterator with handle `i`: an object for `x`, with the iterator advanced to `rest`.
pub record Stepped (it k : Kind) (w : World) (i : ℕ) (x : Value k) (rest : Value it)
    (run : Run (Ref k)) : Type 0 where
  pub handle : ℕ
  pub after : World
  pub returned : run ≡ returns (ref k (pos handle)) after
  pub fresh : object_at k w handle ≡ none
  pub objects : (j : ℕ) → object_at k after j ≡ (if handle == j then some x else object_at k w j)
  pub advanced : (j : ℕ) → object_at it after j ≡ (if i == j then some rest else object_at it w j)
  pub valid : IsValidAt k after
  pub valid_iterators : IsValidAt it after
  pub only : after ≡ (slot k).put ((slot it).put w ((slot it).get after)) ((slot k).get after)

module _ (it k : Kind) (items : Value it → List Obj) (of_items : List Obj → Value it)
    (of_obj : Obj → Value k)
    (apart : (w : World) (b : Bucket (Value it))
      → (slot k).get ((slot it).put w b) ≡ (slot k).get w)
    (apart' : (w : World) (b : Bucket (Value k))
      → (slot it).get ((slot k).put w b) ≡ (slot it).get w) where
  next-Stepped :
      (w : World) (i : ℕ) (v : Value it) (x : Obj) (rest : List Obj)
      → object_at it w i ≡ some v
      → items v ≡ x ∷ rest
      → IsValidAt it w
      → IsValidAt k w
      → Stepped it k w i
          (of_obj x)
          (of_items rest)
          ((do h ← object_iterator_next it k items of_items of_obj (pos i); ref_or_invalid k h) w)
  unfolding object_iterator_next bucket_replace
  next-Stepped w i v x rest live split vi vk =
      let r = replace-Replaced ((slot it).get w) i v (of_items rest) vi live in
      let w1 = (slot it).put w r.after in
      let same : (slot k).get w1 ≡ (slot k).get w = apart w r.after in
      let a = alloc-Allocated ((slot k).get w1) (of_obj x) (rw same vk) in
      record {
        handle = a.handle;
        after = (slot k).put w1 a.after;
        returned =
            rw (bucket_sub-returns it w i v live, split, r.returns)
              (rw (bucket_alloc-returns k w1 (of_obj x) a));
        fresh = rw same at a.fresh;
        objects = λ j. rw (get-put k w1 a.after) (rw same at (a.stored j));
        advanced = λ j. rw (apart' w1 a.after, get-put it w r.after) (r.replaced j);
        valid = rw (get-put k w1 a.after) a.valid;
        valid_iterators = rw (apart' w1 a.after, get-put it w r.after) r.valid;
        only = rw (apart' w1 a.after, get-put it w r.after, get-put k w1 a.after) refl;
      }

-- While values are left in a host iterator whose handle is in use, `hasNext` holds, and `next`
-- returns a Host for the first value, with a handle that was not in use, and leaves the iterator
-- at the other values; no other host handle and no other iterator changes. The free lists of the
-- two buckets must link exactly their free cells, and do so afterwards.
pub host_iterator_step :
    (w : World) (i x : ℕ) (rest : List ℕ)
    → object_at host_iterator w i ≡ some (x ∷ rest)
    → IsValidAt host_iterator w
    → IsValidAt host w
    → (host_iterator_has_next (ref host_iterator (pos i)) w ≡ returns true w)
      × Stepped host_iterator host w i x rest (host_iterator_next (ref host_iterator (pos i)) w)
unfolding host_iterator_has_next cusp_host_iterator_has_next host_iterator_next
    cusp_host_iterator_next
host_iterator_step w i x rest live vi vk = (
  rw (bucket_sub-returns host_iterator w i (x ∷ rest) live),
  next-Stepped host_iterator host (λ v. v) (λ v. v) (λ o. o) (λ u b. refl) (λ u b. refl) w i
      (x ∷ rest) x rest live refl vi vk,
)
