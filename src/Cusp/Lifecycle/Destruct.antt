-- ===== src/Cusp/Lifecycle/Destruct.antt =====
-- The destructors of the handle classes.
use gocusp.Base.{if◌then◌else◌, inl, inr, none, some, ℕ, ◌==◌, ◌≡◌, ◌⊎◌}
use gocusp.Cusp.Classes.{class_of}
use gocusp.Cusp.Lifecycle.{Changes, IsValidAt, class_of-eq, get-put, object_at}
use gocusp.Cusp.Ref.{handle_class, ref}
use gocusp.IdBucket.Release.{free-Released, unused_free}
use gocusp.Ml.{pos, subscript}
use gocusp.Runtime.Handles.{Kind, Value, release, slot}
use gocusp.Runtime.World.{World, assertion, exception, returns, stops}

pub record Destructed (k : Kind) (w : World) (h : ℕ) : Type 0 where
  pub after : World
  pub returned : (class_of k).destruct (ref k (pos h)) w ≡ returns tt after
  pub change : Changes k w after (λ j. if h == j then none else object_at k w j)

-- For each of the handle classes: destructing an object whose handle is in use succeeds, frees
-- that handle and changes no other handle and no other part of the SML side; the free list of
-- the class's bucket must link exactly its free cells, and does so afterwards.
pub destruct-Destructed :
    (k : Kind) (w : World) (h : ℕ) (x : Value k)
    → IsValidAt k w
    → object_at k w h ≡ some x
    → Destructed k w h
unfolding handle_class release
destruct-Destructed k w h x v e =
    let r = free-Released ((slot k).get w) h x v e in
    record {
      after = (slot k).put w r.after;
      returned = rw (class_of-eq k, r.returns);
      change = record {
        objects = λ j. rw (get-put k w r.after) (r.removed j);
        only = rw (get-put k w r.after);
        valid = rw (get-put k w r.after) r.valid;
      };
    }

-- For each of the handle classes: destructing an object whose handle is not in use, such as one
-- that was destructed before, ends the process at the assertion, or on Subscript.
pub destruct_unused :
    (k : Kind) (w : World) (h : ℕ)
    → object_at k w h ≡ none
    → ((class_of k).destruct (ref k (pos h)) w ≡ stops assertion)
      ⊎ ((class_of k).destruct (ref k (pos h)) w ≡ stops (exception subscript))
unfolding handle_class release
destruct_unused k w h e = elim (unused_free ((slot k).get w) h e) [
  | inl f ↦ inl (rw (class_of-eq k, f))
  | inr f ↦ inr (rw (class_of-eq k, f))
]
