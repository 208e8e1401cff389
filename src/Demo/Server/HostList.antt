-- ===== src/Demo/Server/HostList.antt =====
-- server.cpp: Server::printHosts.
use gocusp.Cusp.EndPoint
use gocusp.Base.{List, [], if◌then◌else◌, some, ℕ, ◌==◌, ◌≡◌}
use gocusp.Cusp.EndPoint.{hosts}
use gocusp.Cusp.Lifecycle.{IsValidAt, object_at}
use gocusp.Demo.Server.{Server}
use gocusp.Demo.Server.Main.{run}
use gocusp.IdBucket.{Bucket}
use gocusp.IdBucket.Chain.{IsValid}
use gocusp.IdBucket.View.{contents}
use gocusp.Runtime.Engine.{Engine, Log, Obj}
use gocusp.Runtime.Handles.{address, host, host_iterator}
use gocusp.Runtime.World.{Run, World, returns}

-- What the loop over the hosts leaves, from an iterator under the handle `i`.
record AllPrinted (w : World) (i : ℕ) (run : Run (Unit {0})) : Type 0 where
  hosts : Bucket Obj
  addresses : Bucket Obj
  iterators : Bucket (List Obj)
  log : Log
  returned :
      run
      ≡ returns tt
          (record w { host = hosts; address = addresses; host_iterator = iterators; log = log })
  kept : (j : ℕ) → contents hosts j ≡ object_at host w j
  same : (j : ℕ) → contents addresses j ≡ object_at address w j
  advanced :
      (j : ℕ) → contents iterators j ≡ (if i == j then some [] else object_at host_iterator w j)
  valid : IsValid hosts
  valid_addresses : IsValid addresses
  valid_iterators : IsValid iterators

pub record Listed (w : World) (run : Run (Unit {0})) : Type 0 where
  pub after : World
  pub returned : run ≡ returns tt after
  pub hosts : (j : ℕ) → object_at host after j ≡ object_at host w j
  pub addresses : (j : ℕ) → object_at address after j ≡ object_at address w j
  pub iterators : (j : ℕ) → object_at host_iterator after j ≡ object_at host_iterator w j
  pub only : after ≡ (record w {
    host = after.host;
    address = after.address;
    host_iterator = after.host_iterator;
    log = after.log;
  })
  pub valid : IsValidAt host after × IsValidAt address after × IsValidAt host_iterator after
