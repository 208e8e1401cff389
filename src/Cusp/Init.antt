-- ===== src/Cusp/Init.antt =====
-- cusp.cpp: the functions that open, run and close the library. `openCounter` is kept beside the
-- world; cusp_open and cusp_close are the entry points that the SML compiler generates.
use gocusp.Base.{Bool, List, if◌then◌else◌, ltb, suc, ℕ, ◌-◌, ◌==◌, ◌∷◌}
use gocusp.Runtime.Engine.{Engine}
use gocusp.Runtime.Exports.EndPoint.{
  cusp_main, cusp_main_running, cusp_main_sigint, cusp_process_events, cusp_stop_main,
}
use gocusp.Runtime.World.{M}

pub data Lib : Type 0 where
  opened closed : Lib

-- What a call of this part does to the SML runtime.
pub record Openings : Type 0 where
  pub counter : ℕ
  pub events : List Lib

pub data Outcome : Type 0 where
  done : Openings → Outcome
  aborted : Outcome

-- cuspInit()
unfoldable pub cusp_init : Openings → Outcome
cusp_init o = done (record {
  counter = suc o.counter;
  events = if o.counter == 0 then opened ∷ o.events else o.events;
})

-- cuspInit(argc, argv)
unfoldable pub cusp_init_args : Openings → Outcome
cusp_init_args o =
    if o.counter == 0
    then done (record { counter = suc o.counter; events = opened ∷ o.events })
    else aborted

-- cuspShutdown()
unfoldable pub cusp_shutdown : Openings → Outcome
cusp_shutdown o =
    if ltb 0 o.counter
    then done (record {
      counter = o.counter - 1;
      events = if o.counter - 1 == 0 then closed ∷ o.events else o.events;
    })
    else aborted

module _ (E : Engine) where
  unfoldable pub cusp_main_loop : M (Unit {0})
  cusp_main_loop = cusp_main E

  unfoldable pub cusp_main_sig_int : M (Unit {0})
  cusp_main_sig_int = cusp_main_sigint E

  unfoldable pub cusp_main_is_running : M Bool
  cusp_main_is_running = cusp_main_running E

  unfoldable pub cusp_main_stop : M (Unit {0})
  cusp_main_stop = cusp_stop_main E

  unfoldable pub cusp_process : M (Unit {0})
  cusp_process = cusp_process_events E
