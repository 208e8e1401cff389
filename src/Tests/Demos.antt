-- ===== src/Tests/Demos.antt =====
-- The demo programs on a few clients.
use gocusp.Demo.Server
use gocusp.Base.{[], false, inr, none, refl, ◌∷◌, ◌≡◌}
use gocusp.Cusp.Ref.{ref}
use gocusp.Demo.Client.{Client}
use gocusp.Demo.Client.Hello.{Greeting}
use gocusp.Demo.Client.Lifetime.{TimerLeft, timer_after_shutdown}
use gocusp.Demo.Server.{Connection, Server}
use gocusp.Demo.Server.Lists.{print_hosts}
use gocusp.Demo.Server.UnknownAddress.{unknown_address_stops}
use gocusp.Ml.{minus_one, pos}
use gocusp.Runtime.Engine.{Engine}
use gocusp.Runtime.Handles.{end_point, event, host, in_stream, out_stream}
use gocusp.Runtime.World.{World, assertion, stops}
use gocusp.Tests.Samples.{busy, calm_engine, one_iterator-IsValid, two_used, two_used-IsValid}

-- Two end points and timers besides.
abbrev serving : World
serving = record busy { end_point = two_used; event = two_used }

-- A client that has found its server and writes to it.
abbrev writing_client : Client
writing_client = record {
  event = ref event (pos 3);
  ep = ref end_point (pos 3);
  host = ref host (pos 2);
  is = ref in_stream minus_one;
  os = ref out_stream (pos 2);
}

timer_after_shutdown_example : TimerLeft calm_engine 4 writing_client serving
timer_after_shutdown_example =
    timer_after_shutdown calm_engine 4 writing_client serving two_used-IsValid
      (inr (2, 20, refl, refl))

abbrev new_client : Client
new_client = record writing_client { host = ref host minus_one; os = ref out_stream minus_one }

-- A connection that the server has accepted.
abbrev silent_connection : Connection
silent_connection = record {
  self = 11;
  is = ref in_stream (pos 3);
  remote_host = ref host (pos 3);
  os = ref out_stream minus_one;
  ready = false;
}

abbrev one_server : Server
one_server = record {
  ep = ref end_point (pos 3);
  connections = 11 ∷ [];
  objects = silent_connection ∷ [];
}

-- An engine that knows no address.
abbrev addressless : Engine
addressless = record calm_engine { maybe_object = λ l c. none }

unknown_address_stops_example : print_hosts addressless 2 one_server serving ≡ stops assertion
unknown_address_stops_example =
    unknown_address_stops addressless (λ l c. refl) one_server serving 3 10 5 1 (6 ∷ []) refl refl
      one_iterator-IsValid two_used-IsValid refl (λ l. refl)
