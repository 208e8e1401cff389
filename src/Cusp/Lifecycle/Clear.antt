-- ===== src/Cusp/Lifecycle/Clear.antt =====
-- Assigning an object without a handle, as in `host = Host();`, to an object of a handle class.
use gocusp.Base.{Bool, false, if◌then◌else◌, inl, inr, none, refl, some, ℕ, ◌==◌, ◌≡◌, ◌⊎◌}
use gocusp.Cusp.Classes.{class_of}
use gocusp.Cusp.Lifecycle.{IsValidAt, class_of-eq, object_at, put-get}
use gocusp.Cusp.Lifecycle.Assign.{assign-eq, assign_to_invalid}
use gocusp.Cusp.Lifecycle.Destruct.{destruct-Destructed}
use gocusp.Cusp.Ref.{Ref, handle_class, ref}
use gocusp.IdBucket.{Bucket}
use gocusp.IdBucket.Chain.{IsValid}
use gocusp.IdBucket.View.{contents}
use gocusp.Ml.{minus_one, negsuc, pos}
use gocusp.Runtime.Handles.{Kind, Value, slot}
use gocusp.Runtime.World.{Run, World, returns}

-- The handle of an object, as far as it has one.
abbrev pub holds : {k : Kind} → Ref k → ℕ → Bool
holds r j = elim r.handle [ pos h ↦ h == j | negsuc n ↦ false ]

-- An object without a handle, or with a handle in use.
abbrev pub Stands : (k : Kind) → World → Ref k → Type 0
Stands k w r =
    (r ≡ ref k minus_one)
    ⊎ ((h : ℕ) × (x : Value k) × (r ≡ ref k (pos h)) × (object_at k w h ≡ some x))

-- What an action leaves that takes the handle from an object.
pub record Cleared (k : Kind) (w : World) (r : Ref k) (run : Run (Ref k)) : Type 0 where
  pub bucket : Bucket (Value k)
  pub returned : run ≡ returns (ref k minus_one) ((slot k).put w bucket)
  pub objects : (j : ℕ) → contents bucket j ≡ (if holds r j then none else object_at k w j)
  pub valid : IsValid bucket

copy_invalid :
    (k : Kind) (w : World) → (class_of k).copy (ref k minus_one) w ≡ returns (ref k minus_one) w
unfolding handle_class
copy_invalid k w = rw (class_of-eq k) refl

pub assign_invalid :
    (k : Kind) (w : World) (r : Ref k)
    → IsValidAt k w
    → Stands k w r
    → Cleared k w r ((class_of k).assign r (ref k minus_one) w)
assign_invalid k w r v (inl none_held) = record {
  bucket = (slot k).get w;
  returned =
      rw (none_held, put-get k w)
        (assign_to_invalid k (ref k minus_one) (ref k minus_one) w w (copy_invalid k w));
  objects = λ j. rw none_held refl;
  valid = v;
}
assign_invalid k w r v (inr (h, x, held, live)) =
    let d = destruct-Destructed k w h x v live in
    record {
      bucket = (slot k).get d.after;
      returned = rw (held, assign-eq k, copy_invalid k w, d.returned, ← d.change.only) refl;
      objects = λ j. rw held (d.change.objects j);
      valid = d.change.valid;
    }
