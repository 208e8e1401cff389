-- ===== src/Tests/Samples.antt =====
-- Inputs for the tests: tables of handles, states of the SML side and engines.
use gocusp.Base.{Bool, List, [], false, leb, none, not, refl, some, true, ℕ, ◌||◌, ◌∷◌}
use gocusp.IdBucket.{Bucket, alloc, free_cell, full_cell, new}
use gocusp.IdBucket.Chain.{IsValid}
use gocusp.IdBucket.History.{Reachable, Reachable-alloc, allocates, fresh, step}
use gocusp.Ml.{minus_one, pos}
use gocusp.Runtime.Engine.{Call, Engine, Log, out_stream_shutdown, out_stream_write}
use gocusp.Runtime.World.{World, start}
use gocusp.Util.BufferedOutStream.Traffic.{AcceptsInTurn, is_idle, is_shut}
use gocusp.Util.Memory.{Allocator}

-- The bucket after two allocations: handles 3 and 2 stand for 10 and 20.
abbrev pub two_used : Bucket ℕ
two_used = record {
  free = pos 1;
  table = free_cell minus_one ∷ free_cell (pos 0) ∷ full_cell 20 ∷ full_cell 10 ∷ [];
}

abbrev pub one_used : Bucket ℕ
one_used = record {
  free = pos 2;
  table = free_cell minus_one ∷ free_cell (pos 0) ∷ free_cell (pos 1) ∷ full_cell 10 ∷ [];
}

-- The handle 3 stands for an iterator over 5 and 6.
abbrev pub one_iterator : Bucket (List ℕ)
one_iterator = record {
  free = pos 2;
  table = free_cell minus_one ∷ free_cell (pos 0) ∷ free_cell (pos 1) ∷ full_cell (5 ∷ 6 ∷ []) ∷ [];
}

pub one_used-Reachable : Reachable one_used
unfolding new alloc
one_used-Reachable = step fresh (allocates 10 (pos 3) refl)

pub two_used-Reachable : Reachable two_used
unfolding alloc
two_used-Reachable = step one_used-Reachable (allocates 20 (pos 2) refl)

pub one_iterator-Reachable : Reachable one_iterator
unfolding new alloc
one_iterator-Reachable = step fresh (allocates (5 ∷ 6 ∷ []) (pos 3) refl)

pub two_used-IsValid : IsValid two_used
two_used-IsValid = (Reachable-alloc 0 two_used-Reachable).0

pub one_iterator-IsValid : IsValid one_iterator
one_iterator-IsValid = (Reachable-alloc [] one_iterator-Reachable).0

-- Two hosts, addresses and streams, and an iterator over hosts.
abbrev pub busy : World
busy = record start {
  host = two_used;
  address = two_used;
  out_stream = two_used;
  in_stream = two_used;
  host_iterator = one_iterator;
}

-- A table whose handle 3 stands for an iterator with no values left.
abbrev pub spent_iterator : {A : Type 0} → Bucket (List A)
spent_iterator = record {
  free = pos 2;
  table = free_cell minus_one ∷ free_cell (pos 0) ∷ free_cell (pos 1) ∷ full_cell [] ∷ [];
}

abbrev pub spent : World
spent = record start {
  host_iterator = spent_iterator;
  in_stream_iterator = spent_iterator;
  out_stream_iterator = spent_iterator;
  channel_iterator = spent_iterator;
}

-- `write` and `shutdown` raise RaceCondition while a write waits or after a shutdown.
abbrev pub race : Log → Call → Bool
race l (out_stream_write s bytes p) = not (is_idle s l) || is_shut s l
race l (out_stream_shutdown s p) = not (is_idle s l) || is_shut s l
race l _ = false

abbrev pub sample_engine : Engine
sample_engine = record {
  raises = race;
  object = λ l c. 7;
  maybe_object = λ l c. some 8;
  objects = λ l c. 5 ∷ 6 ∷ [];
  channels = λ l c. (5, some 6) ∷ [];
  number = λ l c. pos 4;
  maybe_number = λ l c. none;
  word = λ l c. 3;
  flag = λ l c. true;
  text = λ l c. 104 ∷ 105 ∷ [];
}

pub sample_engine-AcceptsInTurn : (s : ℕ) → AcceptsInTurn s sample_engine
sample_engine-AcceptsInTurn s = record {
  accepts_write = λ l bytes p idle open_yet. rw (idle, open_yet) refl;
  accepts_shutdown = λ l p idle open_yet. rw (idle, open_yet) refl;
}

-- An engine that raises nothing: it answers each write before the next call.
abbrev pub calm_engine : Engine
calm_engine = record sample_engine { raises = λ l c. false }

-- At most 2000 bytes.
abbrev pub small_allocator : Allocator
small_allocator = record { has_room = λ n. leb n 2000; junk = λ i. 255 }
