-- ===== src/Cusp/Lifecycle/Assign.antt =====
-- The assignment operators of the handle classes, and a copy that goes out of scope.
use gocusp.Base.{ap, false, if◌then◌else◌, none, refl, some, ℕ, ◌==◌, ◌∙◌, ◌≡◌}
use gocusp.Cusp.Classes.{class_of}
use gocusp.Cusp.Lifecycle.{
  ==-refl, Changes, Changes-trans, IsValidAt, class_of-eq, hide-fresh, object_at, unused-ne-used,
}
use gocusp.Cusp.Lifecycle.Copy.{copy-Copied}
use gocusp.Cusp.Lifecycle.Destruct.{destruct-Destructed}
use gocusp.Cusp.Ref.{Ref, handle_class, ref}
use gocusp.Ml.{minus_one, pos}
use gocusp.Runtime.Handles.{Kind, Value}
use gocusp.Runtime.World.{World, pure, returns, ◌>>=◌, ◌>>◌}

pub record Assigned (k : Kind) (w : World) (t h : ℕ) (x : Value k) : Type 0 where
  pub handle : ℕ
  pub after : World
  pub returned :
      (class_of k).assign (ref k (pos t)) (ref k (pos h)) w ≡ returns (ref k (pos handle)) after
  pub fresh : object_at k w handle ≡ none
  pub change :
      Changes k w after
        (λ j. if t == j then none else if handle == j then some x else object_at k w j)

pub assign-eq :
    (k : Kind) (this e : Ref k)
    → (class_of k).assign this e ≡ (do
      ep ← (class_of k).copy e
      (class_of k).destruct (ref k this.handle)
      pure (ref k ep.handle))
unfolding handle_class
assign-eq k this e = rw (class_of-eq k)

pub destruct_invalid :
    (k : Kind) (w : World) → (class_of k).destruct (ref k minus_one) w ≡ returns tt w
unfolding handle_class
destruct_invalid k w = rw (class_of-eq k) refl

-- Assigning to an object that has no handle.
pub assign_to_invalid :
    (k : Kind) (e c : Ref k) (w after : World)
    → (class_of k).copy e w ≡ returns c after
    → (class_of k).assign (ref k minus_one) e w ≡ returns c after
assign_to_invalid k e c w after copied = rw (assign-eq k, copied, destruct_invalid k after)

-- For each of the handle classes, with handles `t` and `h` in use, which may be the same:
-- assigning the object of `h` to that of `t` frees the handle `t` and returns an object with a
-- handle that was not in use, for the SML object of `h`; no other handle and no other part of
-- the SML side changes. The free list of the class's bucket must link exactly its free cells,
-- and does so afterwards.
pub assign-Assigned :
    (k : Kind) (w : World) (t h : ℕ) (y x : Value k)
    → IsValidAt k w
    → object_at k w t ≡ some y
    → object_at k w h ≡ some x
    → Assigned k w t h x
assign-Assigned k w t h y x v et eh =
    let c = copy-Copied k w h x v eh in
    let apart : (c.handle == t) ≡ false = unused-ne-used (object_at k w) c.handle t y c.fresh et in
    let still : object_at k c.after t ≡ some y = c.change.objects t ∙ (rw apart et) in
    let d = destruct-Destructed k c.after t y c.change.valid still in
    record {
      handle = c.handle;
      after = d.after;
      returned = rw (assign-eq k, c.returned, d.returned);
      fresh = c.fresh;
      change =
          Changes-trans k w c.after d.after c.change.only
            (λ j. if t == j then none else if c.handle == j then some x else object_at k w j)
            (λ j. d.change.objects j ∙ ap (λ o. if t == j then none else o) (c.change.objects j))
            d.change.only d.change.valid;
    }

-- For each of the handle classes: copying an object whose handle is in use and destructing the
-- copy succeeds and leaves every handle standing for what it stood for, and no other part of the
-- SML side changes, provided the free list of the class's bucket links exactly its free cells,
-- as it does afterwards.
pub copy-destruct :
    (k : Kind) (w : World) (h : ℕ) (x : Value k)
    → IsValidAt k w
    → object_at k w h ≡ some x
    → (after : World) × (((do c ← (class_of k).copy (ref k (pos h)); (class_of k).destruct c) w)
        ≡ returns tt after)
      × Changes k w after (object_at k w)
copy-destruct k w h x v e =
    let c = copy-Copied k w h x v e in
    let here : object_at k c.after c.handle ≡ some x =
      c.change.objects c.handle ∙ (rw (==-refl c.handle)) in
    let d = destruct-Destructed k c.after c.handle x c.change.valid here in
    (
      d.after,
      rw (c.returned, d.returned),
      Changes-trans k w c.after d.after c.change.only (object_at k w)
          (λ j.
            d.change.objects j
            ∙ hide-fresh (object_at k w) c.handle j x c.fresh (c.change.objects j))
          d.change.only d.change.valid,
    )
