-- ===== src/Demo/Server/Main.antt =====
-- server.cpp: the server's life. The main loop is followed by the calls that the library makes while
-- it runs. `self` is the address of the server.
use gocusp.Cusp.EndPoint
use gocusp.Cusp.Host
use gocusp.Cusp.Keys
use gocusp.Base.{Bool, List, [], true, ℕ, ◌++◌, ◌∷◌}
use gocusp.Cusp.Classes.{class_of}
use gocusp.Cusp.Init.{
  Openings, Outcome, aborted, cusp_init_args, cusp_main_loop, cusp_shutdown, done,
}
use gocusp.Cusp.Ref.{Ref}
use gocusp.Cusp.SuiteQueries.{public_key_set_defaults, symmetric_set_defaults}
use gocusp.Demo.Server.{
  Server, delete_connection, new_connection, object, on_ready, on_receive, on_reset, on_shutdown,
  on_shutdown_done,
}
use gocusp.Demo.Server.Lists.{
  print_channels, print_hosts, print_public_key_suites, print_symmetric_suites,
}
use gocusp.Ml.{pos, ℤ}
use gocusp.Runtime.Engine.{Bytes, Engine, Pointer}
use gocusp.Runtime.Handles.{end_point, host, in_stream, private_key}
use gocusp.Runtime.World.{M, assertion, pure, stop, ◌>>=◌, ◌>>◌}

-- The calls of the library that come while the main loop runs.
pub data Event : Type 0 where
  connect : Pointer → Ref host → Ref in_stream → Event
  receive : Pointer → Bytes → Event
  shutdown reset ready : Pointer → Event
  shutdown_done : Pointer → Bool → Event

module _ (E : Engine) (self : Pointer) (garbage : ℤ) (rounds : ℕ) where
  -- onConnect(host, stream), where the new connection is at `p`
  unfoldable pub on_connect : Pointer → Ref host → Ref in_stream → Server → M Server
  on_connect p h stream s = do
    Host.to_string E h
    c ← new_connection E p stream h
    let s1 : Server = record s {
      connections = s.connections ++ (p ∷ []);
      objects = s.objects ++ (c ∷ []);
    }
    print_hosts E rounds s1
    print_channels E garbage rounds s1
    pure s1

  unfoldable pub handle : Event → Server → M Server
  unfolding on_connect
  handle (connect p h stream) s = on_connect p h stream s
  handle (receive p bytes) s = on_receive E p bytes s
  handle (shutdown p) s = on_shutdown E p s
  handle (reset p) s = on_reset E p s
  handle (ready p) s = on_ready E p s
  handle (shutdown_done p success) s = on_shutdown_done E p success s

  pub handle_all : List Event → Server → M Server
  handle_all [] s = pure s
  handle_all (e ∷ es) s = do s1 ← handle e s; handle_all es s1

  -- ep = EndPoint::create(8585), where the key and the sets are the default arguments
  unfoldable pub open_end_point : Server → M Server
  open_end_point s = do
    key ← Keys.create E
    public_keys ← public_key_set_defaults E
    symmetric ← symmetric_set_defaults E
    made ← EndPoint.create E (pos 8585) key true public_keys symmetric
    (class_of private_key).destruct key
    ep ← (class_of end_point).assign s.ep made
    (class_of end_point).destruct made
    pure (record s { ep = ep })

  unfoldable pub run : List Event → Server → M Server
  unfolding open_end_point
  run events s = do
    s1 ← open_end_point s
    EndPoint.advertise E s1.ep 23 self
    public_keys ← public_key_set_defaults E
    print_public_key_suites E 16 public_keys
    symmetric ← symmetric_set_defaults E
    print_symmetric_suites E 16 symmetric
    cusp_main_loop E
    handle_all events s1

  pub delete_all : List Pointer → Server → M Server
  delete_all [] s = pure s
  delete_all (p ∷ ps) s = do c ← object p s.objects; s1 ← delete_connection E c s; delete_all ps s1

  -- ~Server()
  unfoldable pub destroy : Server → Openings → M Outcome
  destroy s o = do
    s1 ← delete_all s.connections s
    let nothing : Ref end_point = (class_of end_point).invalid
    ep ← (class_of end_point).assign s1.ep nothing
    (class_of end_point).destruct ep
    pure (cusp_shutdown o)

  -- What the constructor leaves, where it returns.
  abbrev pub no_connections : Server
  no_connections = record { ep = (class_of end_point).invalid; connections = []; objects = [] }

  abbrev with_opened : Outcome → (Openings → M Outcome) → M Outcome
  with_opened aborted k = stop assertion
  with_opened (done o) k = k o

  unfoldable pub main : List Event → Openings → M Outcome
  unfolding run destroy
  main events o =
      with_opened (cusp_init_args o) (λ o1. do s ← run events no_connections; destroy s o1)
