-- ===== src/Cusp/Ref.antt =====
-- What the handle classes of cusp.h have in common: one field, the handle, with the constructors,
-- the destructor, `swap`, the assignment and `isValid` that cusp.cpp writes out for each of them.
use gocusp.Base.{Bool, if◌then◌else◌}
use gocusp.Ml.{is_nonneg, minus_one, ℤ}
use gocusp.Runtime.Handles.{Kind}
use gocusp.Runtime.World.{M, check, pure, ◌>>=◌, ◌>>◌}

-- An object of the class for `k`; HANDLE_NONE is -1.
pub record Ref (k : Kind) : Type 0 where
  pub handle : ℤ

abbrev pub ref : (k : Kind) → ℤ → Ref k
ref k h = record { handle = h }

-- ASSERT_HANDLE
abbrev pub assert_handle : ℤ → M (Unit {0})
assert_handle h = check (is_nonneg h)

-- ASSERT_CALL_TRUE
abbrev pub assert_call_true : M Bool → M (Unit {0})
assert_call_true m = do done ← m; check done

-- if (IS_VALID_HANDLE(h)) return X(h); else return X();
abbrev pub ref_or_invalid : (k : Kind) → ℤ → M (Ref k)
ref_or_invalid k h = if is_nonneg h then pure (ref k h) else pure (ref k minus_one)

-- Handle h = ...; ASSERT_HANDLE(h); return X(h);
abbrev pub ref_of : (k : Kind) → M ℤ → M (Ref k)
ref_of k m = do h ← m; assert_handle h; pure (ref k h)

pub record HandleClass (k : Kind) : Type 0 where
  -- X()
  pub invalid : Ref k
  -- X(Handle)
  pub of_handle : ℤ → M (Ref k)
  -- X(const X&)
  pub copy : Ref k → M (Ref k)
  -- ~X()
  pub destruct : Ref k → M (Unit {0})
  -- a.swap(b), as the new values of `a` and `b`
  pub swap : Ref k → Ref k → Ref k × Ref k
  -- a = b, as the new value of `a`
  pub assign : Ref k → Ref k → M (Ref k)
  pub is_valid : Ref k → Bool

module _ (k : Kind) (cusp_dup : ℤ → M ℤ) (cusp_free : ℤ → M Bool) where
  abbrev pub ref_of_handle : ℤ → M (Ref k)
  ref_of_handle h = do assert_handle h; pure (ref k h)

  abbrev pub ref_copy : Ref k → M (Ref k)
  ref_copy e =
      if is_nonneg e.handle
      then (do h ← cusp_dup e.handle; assert_handle h; pure (ref k h))
      else pure (ref k minus_one)

  abbrev pub ref_destruct : Ref k → M (Unit {0})
  ref_destruct e = if is_nonneg e.handle then assert_call_true (cusp_free e.handle) else pure tt

  abbrev pub ref_swap : Ref k → Ref k → Ref k × Ref k
  ref_swap this e = (ref k e.handle, ref k this.handle)

  -- The copy is destructed at the end of the scope, with the handle that `this` had.
  abbrev pub ref_assign : Ref k → Ref k → M (Ref k)
  ref_assign this e = do
    ep ← ref_copy e
    ref_destruct (ref_swap this ep).1
    pure (ref_swap this ep).0

  unfoldable pub handle_class : HandleClass k
  handle_class = record {
    invalid = ref k minus_one;
    of_handle = ref_of_handle;
    copy = ref_copy;
    destruct = ref_destruct;
    swap = ref_swap;
    assign = ref_assign;
    is_valid = λ e. is_nonneg e.handle;
  }
