-- ===== src/Runtime/Exports/Events.antt =====
-- libcusp.sml: Event and Abortable. Times are in nanoseconds.
use gocusp.Base.{Bool, Option, false, none, some, true}
use gocusp.Ml.{minus_one, minus_two, ℤ}
use gocusp.Runtime.Engine.{
  Engine, Pointer, abortable_abort, event_cancel, event_is_scheduled, event_new, event_reschedule,
  event_reschedule_in, event_schedule, event_schedule_in, event_time, event_time_of_execution,
  event_time_till_execution,
}
use gocusp.Runtime.Handles.{abortable, bucket_alloc, event, with_object}
use gocusp.Runtime.World.{M, perform, perform_unit, pure, ◌>>=◌, ◌>>◌}

module _ (E : Engine) where
  unfoldable pub cusp_event_time : M ℤ
  cusp_event_time = perform E E.number event_time

  unfoldable pub cusp_event_new : Pointer → M ℤ
  cusp_event_new data' = do e ← perform E E.object (event_new data'); bucket_alloc event e

  unfoldable pub cusp_event_schedule : ℤ → Pointer → M ℤ
  cusp_event_schedule time data' = do
    e ← perform E E.object (event_schedule time data')
    bucket_alloc event e

  unfoldable pub cusp_event_schedule_in : ℤ → Pointer → M ℤ
  cusp_event_schedule_in time data' = do
    e ← perform E E.object (event_schedule_in time data')
    bucket_alloc event e

  unfoldable pub cusp_event_reschedule : ℤ → ℤ → M Bool
  cusp_event_reschedule h time =
      with_object event h (λ e. do perform_unit E (event_reschedule e time); pure true) false

  unfoldable pub cusp_event_reschedule_in : ℤ → ℤ → M Bool
  cusp_event_reschedule_in h time =
      with_object event h (λ e. do perform_unit E (event_reschedule_in e time); pure true) false

  unfoldable pub cusp_event_cancel : ℤ → M Bool
  cusp_event_cancel h =
      with_object event h (λ e. do perform_unit E (event_cancel e); pure true) false

  abbrev time_or_minus_one : Option ℤ → ℤ
  time_or_minus_one none = minus_one
  time_or_minus_one (some t) = t

  unfoldable pub cusp_event_time_of_execution : ℤ → M ℤ
  cusp_event_time_of_execution h =
      with_object event h
        (λ e. do
          t ← perform E E.maybe_number (event_time_of_execution e)
          pure (time_or_minus_one t))
        minus_two

  unfoldable pub cusp_event_time_till_execution : ℤ → M ℤ
  cusp_event_time_till_execution h =
      with_object event h
        (λ e. do
          t ← perform E E.maybe_number (event_time_till_execution e)
          pure (time_or_minus_one t))
        minus_two

  unfoldable pub cusp_event_is_scheduled : ℤ → M Bool
  cusp_event_is_scheduled h =
      with_object event h (λ e. perform E E.flag (event_is_scheduled e)) false

  unfoldable pub cusp_abortable_abort : ℤ → M Bool
  cusp_abortable_abort h =
      with_object abortable h (λ a. do perform_unit E (abortable_abort a); pure true) false
