-- ===== src/Cusp/Behaviour/Openings.antt =====
-- cusp.cpp: runs of cuspInit and cuspShutdown.
use gocusp.Base.{Bool, List, [], false, ltb, true, ◌∷◌, ◌≡◌}
use gocusp.Cusp.Init.{
  Lib, Openings, Outcome, aborted, closed, cusp_init, cusp_init_args, cusp_shutdown, done, opened,
}

-- Whether the runtime is open after these events, the last one first.
abbrev pub is_open : List Lib → Bool
is_open [] = false
is_open (opened ∷ events) = true
is_open (closed ∷ events) = false

-- cusp_open and cusp_close were called in turn, cusp_open first.
abbrev pub Alternates : List Lib → Type 0
Alternates [] = Unit {0}
Alternates (opened ∷ events) = (is_open events ≡ false) × Alternates events
Alternates (closed ∷ events) = (is_open events ≡ true) × Alternates events

pub record IsBalanced (o : Openings) : Type 0 where
  pub open_when : is_open o.events ≡ ltb 0 o.counter
  pub alternates : Alternates o.events

pub data LibCall : Type 0 where
  init init_args shutdown : LibCall

abbrev pub lib_call : LibCall → Openings → Outcome
lib_call init = cusp_init
lib_call init_args = cusp_init_args
lib_call shutdown = cusp_shutdown

abbrev pub then_calls : Outcome → (Openings → Outcome) → Outcome
then_calls (done o) f = f o
then_calls aborted f = aborted

-- A run of calls, which an assertion may end.
pub run_calls : List LibCall → Openings → Outcome
run_calls [] o = done o
run_calls (c ∷ cs) o = then_calls (lib_call c o) (run_calls cs)

abbrev pub Holds : (Openings → Type 0) → Outcome → Type 0
Holds P (done o) = P o
Holds P aborted = Unit {0}

-- Before any call.
abbrev pub never_opened : Openings
never_opened = record { counter = 0; events = [] }
