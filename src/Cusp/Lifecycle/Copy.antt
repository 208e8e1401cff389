-- ===== src/Cusp/Lifecycle/Copy.antt =====
-- The copy constructors of the handle classes.
use gocusp.Base.{if◌then◌else◌, inl, inr, none, some, ℕ, ◌==◌, ◌≡◌, ◌⊎◌}
use gocusp.Cusp.Classes.{class_of}
use gocusp.Cusp.Lifecycle.{
  Changes, IsValidAt, bucket_alloc-returns, bucket_sub-returns, class_of-eq, get-put, object_at,
}
use gocusp.Cusp.Ref.{handle_class, ref}
use gocusp.IdBucket.Alloc.{alloc-Allocated}
use gocusp.IdBucket.Release.{unused_sub}
use gocusp.Ml.{pos, subscript}
use gocusp.Runtime.Handles.{Kind, Value, bucket_sub, dup, slot}
use gocusp.Runtime.World.{World, assertion, exception, returns, stops}

pub record Copied (k : Kind) (w : World) (h : ℕ) (x : Value k) : Type 0 where
  pub handle : ℕ
  pub after : World
  pub returned : (class_of k).copy (ref k (pos h)) w ≡ returns (ref k (pos handle)) after
  pub fresh : object_at k w handle ≡ none
  pub change : Changes k w after (λ j. if handle == j then some x else object_at k w j)

-- For each of the handle classes: the copy of an object whose handle is in use gets a handle
-- that was not in use, for the same SML object, provided the free list of the class's bucket
-- links exactly its free cells; it still does afterwards, and no other handle and no other part
-- of the SML side changes.
pub copy-Copied :
    (k : Kind) (w : World) (h : ℕ) (x : Value k)
    → IsValidAt k w
    → object_at k w h ≡ some x
    → Copied k w h x
unfolding handle_class dup
copy-Copied k w h x v e =
    let a = alloc-Allocated ((slot k).get w) x v in
    record {
      handle = a.handle;
      after = (slot k).put w a.after;
      returned = rw (class_of-eq k, bucket_sub-returns k w h x e, bucket_alloc-returns k w x a);
      fresh = a.fresh;
      change = record {
        objects = λ j. rw (get-put k w a.after) (a.stored j);
        only = rw (get-put k w a.after);
        valid = rw (get-put k w a.after) a.valid;
      };
    }

-- For each of the handle classes: copying an object whose handle is not negative and not in use
-- ends the process, at the assertion or on Subscript.
pub copy_unused :
    (k : Kind) (w : World) (h : ℕ)
    → object_at k w h ≡ none
    → ((class_of k).copy (ref k (pos h)) w ≡ stops assertion)
      ⊎ ((class_of k).copy (ref k (pos h)) w ≡ stops (exception subscript))
unfolding handle_class dup bucket_sub
copy_unused k w h e = elim (unused_sub ((slot k).get w) h e) [
  | inl f ↦ inl (rw (class_of-eq k, f))
  | inr f ↦ inr (rw (class_of-eq k, f))
]
