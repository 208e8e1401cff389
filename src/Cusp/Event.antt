-- ===== src/Cusp/Event.antt =====
-- cusp.cpp: Event and Abortable. Times are in nanoseconds.
use gocusp.Base.{Bool, false, not, ◌==◌}
use gocusp.Cusp.Classes.{event_class}
use gocusp.Cusp.EndPoint.{assert_pointer}
use gocusp.Cusp.Ref.{Ref, assert_call_true, assert_handle, ref_of}
use gocusp.Ml.{negsuc, pos, ℤ}
use gocusp.Runtime.Engine.{Engine, Pointer}
use gocusp.Runtime.Exports.Events.{
  cusp_abortable_abort, cusp_event_cancel, cusp_event_is_scheduled, cusp_event_new,
  cusp_event_reschedule, cusp_event_reschedule_in, cusp_event_schedule, cusp_event_schedule_in,
  cusp_event_time, cusp_event_time_of_execution, cusp_event_time_till_execution,
}
use gocusp.Runtime.Handles.{abortable, event}
use gocusp.Runtime.World.{M, check, pure, ◌>>=◌, ◌>>◌}

pub record EventHandler : Type 0 where
  pub on_event : Pointer → Ref event → M (Unit {0})

abbrev is_minus_two : ℤ → Bool
is_minus_two (pos n) = false
is_minus_two (negsuc n) = n == 1

-- assert(t != -2)
abbrev assert_not_minus_two : M ℤ → M ℤ
assert_not_minus_two m = do t ← m; check (not (is_minus_two t)); pure t

module _ (E : Engine) where
  unfoldable pub create : Pointer → M (Ref event)
  create handler = do assert_pointer handler; ref_of event (cusp_event_new E handler)

  -- A null handler is not refused here.
  unfoldable pub schedule : ℤ → Pointer → M (Ref event)
  schedule time handler = ref_of event (cusp_event_schedule E time handler)

  unfoldable pub schedule_in : ℤ → Pointer → M (Ref event)
  schedule_in time handler = ref_of event (cusp_event_schedule_in E time handler)

  unfoldable pub time : M ℤ
  time = cusp_event_time E

  unfoldable pub reschedule : Ref event → ℤ → M (Unit {0})
  reschedule e t = do assert_handle e.handle; assert_call_true (cusp_event_reschedule E e.handle t)

  unfoldable pub reschedule_in : Ref event → ℤ → M (Unit {0})
  reschedule_in e t = do
    assert_handle e.handle
    assert_call_true (cusp_event_reschedule_in E e.handle t)

  unfoldable pub cancel : Ref event → M (Unit {0})
  cancel e = do assert_handle e.handle; assert_call_true (cusp_event_cancel E e.handle)

  unfoldable pub time_of_execution : Ref event → M ℤ
  time_of_execution e = do
    assert_handle e.handle
    assert_not_minus_two (cusp_event_time_of_execution E e.handle)

  unfoldable pub time_till_execution : Ref event → M ℤ
  time_till_execution e = do
    assert_handle e.handle
    assert_not_minus_two (cusp_event_time_till_execution E e.handle)

  unfoldable pub is_scheduled : Ref event → M Bool
  is_scheduled e = do assert_handle e.handle; cusp_event_is_scheduled E e.handle

  unfoldable pub abort : Ref abortable → M (Unit {0})
  abort a = do assert_handle a.handle; assert_call_true (cusp_abortable_abort E a.handle)

unfoldable pub event_callback : EventHandler → ℤ → Pointer → M (Unit {0})
event_callback handler event_handle data' = do
  assert_pointer data'
  e ← event_class.of_handle event_handle
  handler.on_event data' e
  event_class.destruct e
