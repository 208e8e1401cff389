-- ===== src/Demo/Client/Main.antt =====
-- client.cpp: `main`. Each of its two main loops is followed by the calls that the library makes while
-- it runs. `strtol` is the library's function, cut to an int; `waiter` is the address of the DestroyWait.
use gocusp.Base.{Bool, List, [], get_elem?, none, some, ℕ, ◌∷◌}
use gocusp.Cusp.Init.{
  Openings, Outcome, aborted, cusp_init, cusp_main_sig_int, cusp_main_stop, cusp_shutdown, done,
}
use gocusp.Cusp.Ref.{Ref}
use gocusp.Demo.Client.{
  Client, construct, destroy, destruct_fields, on_connect, on_contact, on_contact_fail, on_event,
  on_ready, on_receive, on_reset, on_shutdown, on_shutdown_done, shutdown,
}
use gocusp.Ml.{pos, ℤ}
use gocusp.Runtime.Engine.{Bytes, Engine, Pointer}
use gocusp.Runtime.Handles.{host, in_stream, out_stream}
use gocusp.Runtime.World.{M, assertion, pure, stop, ◌>>=◌, ◌>>◌}

pub data ClientEvent : Type 0 where
  contacted : Ref host → Ref out_stream → ClientEvent
  contact_failed : ClientEvent
  connected : Ref in_stream → ClientEvent
  received : Bytes → ClientEvent
  shut reset ready timer safe_to_destroy : ClientEvent
  shut_down : Bool → ClientEvent

module _ (E : Engine) (self waiter : Pointer) (rounds : ℕ) (strtol : Bytes → ℤ) where
  -- DestroyWait::onSafeToDestroy()
  unfoldable pub on_safe_to_destroy : M (Unit {0})
  on_safe_to_destroy = cusp_main_stop E

  unfoldable pub handle : ClientEvent → Client → M Client
  unfolding on_safe_to_destroy
  handle (contacted h stream) c = on_contact E self h stream c
  handle contact_failed c = on_contact_fail E self c
  handle (connected stream) c = do (c1, count) ← on_connect E self rounds stream c; pure c1
  handle (received bytes) c = on_receive E self c
  handle shut c = on_shutdown E self c
  handle reset c = on_reset E self c
  handle ready c = on_ready E self c
  handle timer c = on_event E self c
  handle safe_to_destroy c = do on_safe_to_destroy; pure c
  handle (shut_down success) c = on_shutdown_done E self success c

  pub handle_all : List ClientEvent → Client → M Client
  handle_all [] c = pure c
  handle_all (e ∷ es) c = do c1 ← handle e c; handle_all es c1

  abbrev local_port : List Bytes → ℤ
  local_port argv = elim (get_elem? argv 1) [ none ↦ pos 8586 | some text ↦ strtol text ]

  -- The default is "localhost".
  abbrev destination : List Bytes → Bytes
  destination argv = elim (get_elem? argv 2) [
    | none ↦ 108 ∷ 111 ∷ 99 ∷ 97 ∷ 108 ∷ 104 ∷ 111 ∷ 115 ∷ 116 ∷ []
    | some text ↦ text
  ]

  abbrev with_opened : Outcome → (Openings → M Outcome) → M Outcome
  with_opened aborted k = stop assertion
  with_opened (done o) k = k o

  -- The client goes out of scope last: its destructor closes the library.
  unfoldable pub main : List Bytes → List ClientEvent → List ClientEvent → Openings → M Outcome
  main argv events last_events o = with_opened (cusp_init o) (λ o1. do
    c ← construct E self (local_port argv) (destination argv)
    cusp_main_sig_int E
    c1 ← handle_all events c
    shutdown E self waiter c1
    cusp_main_sig_int E
    c2 ← handle_all last_events c1
    c3 ← destroy E self c2
    with_opened (cusp_shutdown o1) (λ o2. do destruct_fields E self c3; pure (done o2)))
