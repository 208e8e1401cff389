-- ===== src/Runtime/Engine.antt =====
-- The `CUSP` structure that libcusp.sml opens (cusp.sig): the protocol engine. Its objects are
-- numbered, and each of its operations is a `Call`. What the engine answers is a parameter that may
-- depend on all the calls so far. A handler or a user-data pointer is a number, with 0 for NULL. A
-- float is its 32-bit pattern.
use gocusp.Base.{Bool, List, Option, ℕ}
use gocusp.Ml.{ℤ}

abbrev pub Obj : Type 0
Obj = ℕ

abbrev pub Pointer : Type 0
Pointer = ℕ

abbrev pub ServiceId : Type 0
ServiceId = ℕ

abbrev pub Bytes : Type 0
Bytes = List ℕ

-- The counters of a host, a stream or an end point.
pub data Counter : Type 0 where
  queued_out_of_order queued_unread queued_inflight queued_to_retransmit : Counter
  bytes_received bytes_sent last_receive last_send : Counter

pub data SuiteKind : Type 0 where
  public_key_suites symmetric_suites : SuiteKind

pub data Call : Type 0 where
  main_run main_run_sigint main_is_running main_stop main_poll : Call
  end_point_new : ℤ → Obj → Bool → ℕ → ℕ → Call
  end_point_destroy : Obj → Call
  end_point_when_safe_to_destroy : Obj → Pointer → Call
  end_point_set_rate : Obj → ℤ → Call
  end_point_key : Obj → Call
  end_point_counter : Counter → Obj → Call
  end_point_contact : Obj → Obj → ServiceId → Pointer → Call
  end_point_hosts : Obj → Call
  end_point_channels : Obj → Call
  end_point_advertise : Obj → ServiceId → Pointer → Call
  end_point_unadvertise : Obj → ServiceId → Call
  address_from_string : Bytes → Call
  address_to_string : Obj → Call
  host_connect : Obj → ServiceId → Call
  host_listen : Obj → Pointer → Call
  host_unlisten : Obj → ServiceId → Call
  host_key : Obj → Call
  host_address : Obj → Call
  host_in_streams : Obj → Call
  host_out_streams : Obj → Call
  host_counter : Counter → Obj → Call
  in_stream_read : Obj → ℤ → Pointer → Call
  in_stream_reset : Obj → Call
  in_stream_counter : Counter → Obj → Call
  out_stream_get_priority : Obj → Call
  out_stream_set_priority : Obj → ℕ → Call
  out_stream_write : Obj → Bytes → Pointer → Call
  out_stream_shutdown : Obj → Pointer → Call
  out_stream_reset : Obj → Call
  out_stream_counter : Counter → Obj → Call
  -- The engine calls the handler of the last write of the stream with READY.
  out_stream_ready : Obj → Call
  event_time : Call
  event_new : Pointer → Call
  event_schedule : ℤ → Pointer → Call
  event_schedule_in : ℤ → Pointer → Call
  event_reschedule : Obj → ℤ → Call
  event_reschedule_in : Obj → ℤ → Call
  event_cancel : Obj → Call
  event_time_of_execution : Obj → Call
  event_time_till_execution : Obj → Call
  event_is_scheduled : Obj → Call
  abortable_abort : Obj → Call
  suite_all suite_defaults : SuiteKind → Call
  suite_cheapest suite_name suite_cost : SuiteKind → ℕ → Call
  public_key_to_string : Obj → Call
  public_key_suite : Obj → Call
  private_key_new : Call
  private_key_save : Obj → Bytes → Call
  private_key_load : Bytes → Bytes → Call
  private_key_pubkey : Obj → ℕ → Call

-- The calls so far, the last one first, with the write callbacks as far as a module records them.
abbrev pub Log : Type 0
Log = List Call

-- What the engine answers, by the type of the result. A call for which `raises` holds ends in an
-- exception of the engine, such as RaceCondition or AddressInUse.
pub record Engine : Type 0 where
  pub raises : Log → Call → Bool
  pub object : Log → Call → Obj
  pub maybe_object : Log → Call → Option Obj
  pub objects : Log → Call → List Obj
  pub channels : Log → Call → List (Obj × Option Obj)
  pub number : Log → Call → ℤ
  pub maybe_number : Log → Call → Option ℤ
  pub word : Log → Call → ℕ
  pub flag : Log → Call → Bool
  pub text : Log → Call → Bytes
