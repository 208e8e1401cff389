-- ===== src/Cusp/Lifecycle.antt =====
-- Copying, assigning and destructing the objects of the handle classes, over all the classes: what
-- the theorems say of the world. `Changes` describes an action by the handles that it leaves.
pub mod Copy
pub mod Destruct
pub mod Assign
pub mod Clear
use gocusp.Base.{
  ==_iff, Bool-cases, Option, ap, arith, false, if◌then◌else◌, inl, inr, none, refl, some, true, ℕ,
  ◌==◌, ◌∙◌, ◌≡◌,
}
use gocusp.Cusp.Classes.{class_of}
use gocusp.Cusp.Ref.{handle_class}
use gocusp.IdBucket.{Bucket}
use gocusp.IdBucket.Alloc.{Allocated}
use gocusp.IdBucket.Chain.{IsValid}
use gocusp.IdBucket.Release.{sub_used}
use gocusp.IdBucket.View.{contents}
use gocusp.Ml.{pos}
use gocusp.Runtime.Handles.{Kind, Value, address, bucket_alloc, bucket_sub, dup, release, slot}
use gocusp.Runtime.World.{World, returns}

-- The object that a handle of the bucket `k` stands for.
abbrev pub object_at : (k : Kind) → World → ℕ → Option (Value k)
object_at k w h = contents ((slot k).get w) h

abbrev pub IsValidAt : Kind → World → Type 0
IsValidAt k w = IsValid ((slot k).get w)

pub class_of-eq : (k : Kind) → class_of k ≡ handle_class k (dup k) (release k)
unfolding class_of
class_of-eq address = refl
class_of-eq k = refl

pub get-put : (k : Kind) (w : World) (b : Bucket (Value k)) → (slot k).get ((slot k).put w b) ≡ b
get-put address w b = refl
get-put k w b = refl

pub put-get : (k : Kind) (w : World) → (slot k).put w ((slot k).get w) ≡ w
put-get address w = refl
put-get k w = refl

pub put-put :
    (k : Kind) (w : World) (b c : Bucket (Value k))
    → (slot k).put ((slot k).put w b) c ≡ (slot k).put w c
put-put address w b c = refl
put-put k w b c = refl

-- The handles of `k` after an action, and that the action changed no other part of the world.
pub record Changes (k : Kind) (w after : World) (at : ℕ → Option (Value k)) : Type 0 where
  pub objects : (j : ℕ) → object_at k after j ≡ at j
  pub only : after ≡ (slot k).put w ((slot k).get after)
  pub valid : IsValidAt k after

pub bucket_alloc-returns :
    (k : Kind) (w : World) (x : Value k) (a : Allocated ((slot k).get w) x)
    → bucket_alloc k x w ≡ returns (pos a.handle) ((slot k).put w a.after)
unfolding bucket_alloc
bucket_alloc-returns k w x a = rw a.returns

pub bucket_sub-returns :
    (k : Kind) (w : World) (h : ℕ) (x : Value k)
    → object_at k w h ≡ some x
    → bucket_sub k (pos h) w ≡ returns (some x) w
unfolding bucket_sub
bucket_sub-returns k w h x e = rw (sub_used ((slot k).get w) h x e)

pub ==-refl : (n : ℕ) → (n == n) ≡ true
==-refl n = ground arith

pub unused-ne-used :
    {A : Type 0} (f : ℕ → Option A) (n t : ℕ) (y : A) → f n ≡ none → f t ≡ some y → (n == t) ≡ false
unused-ne-used f n t y en et = elim (Bool-cases (n == t)) [
  | inl e ↦ cc (en, et, (==_iff n t).0 e)
  | inr e ↦ e
]

pub hide-fresh :
    {A : Type 0} (f : ℕ → Option A) {o : Option A} (n j : ℕ) (x : A)
    → f n ≡ none
    → o ≡ (if n == j then some x else f j)
    → (if n == j then none else o) ≡ f j
hide-fresh f n j x en eo = elim (Bool-cases (n == j)) [
  | inl e ↦ rw e (cc (en, (==_iff n j).0 e))
  | inr e ↦ rw e (rw e at eo)
]

pub Changes-trans :
    (k : Kind) (w v u : World)
    → v ≡ (slot k).put w ((slot k).get v)
    → (at : ℕ → Option (Value k)) → ((j : ℕ) → object_at k u j ≡ at j)
    → u ≡ (slot k).put v ((slot k).get u)
    → IsValidAt k u
    → Changes k w u at
Changes-trans k w v u wv at objects vu valid = record {
  objects = objects;
  only =
      vu
      ∙ ap (λ z. (slot k).put z ((slot k).get u)) wv
      ∙ put-put k w ((slot k).get v) ((slot k).get u);
  valid = valid;
}
