-- ===== src/Demo/Server/UnknownAddress.antt =====
-- server.cpp: Server::printHosts where the address of a host is not known.
use gocusp.Cusp.EndPoint
use gocusp.Cusp.Host
use gocusp.Base.{List, false, none, refl, some, suc, ℕ, ◌∙◌, ◌∷◌, ◌≡◌}
use gocusp.Cusp.Behaviour.Iteration.{host_iterator_step}
use gocusp.Cusp.Lifecycle.{==-refl, IsValidAt, bucket_alloc-returns, bucket_sub-returns, object_at}
use gocusp.Cusp.Ref.{ref}
use gocusp.Demo.Server.{Server}
use gocusp.Demo.Server.Greeting.{key_log, key_str-live}
use gocusp.Demo.Server.Lists.{print_host, print_host_rounds, print_hosts}
use gocusp.IdBucket.Alloc.{alloc-Allocated}
use gocusp.Ml.{pos}
use gocusp.Runtime.Engine.{Call, Engine, Log, Obj, end_point_hosts, host_address}
use gocusp.Runtime.Exports.EndPoint.{cusp_endpoint_hosts}
use gocusp.Runtime.Exports.Host.{cusp_host_address}
use gocusp.Runtime.Handles.{end_point, host, host_iterator}
use gocusp.Runtime.World.{World, assertion, stops}

module _ (E : Engine) (quiet : (l : Log) (c : Call) → E.raises l c ≡ false) where
  print_host-unknown :
      (w : World) (h x : ℕ)
      → object_at host w h ≡ some x
      → E.maybe_object (key_log E x w.log) (host_address x) ≡ none
      → print_host E (ref host (pos h)) w ≡ stops assertion
  unfolding print_host Host.address_of cusp_host_address
  print_host-unknown w h x live unknown =
      let w1 : World = record w { log = key_log E x w.log } in
      rw
        (
          (key_str-live E w h x quiet live).1,
          bucket_sub-returns host w1 h x live,
          quiet (key_log E x w.log) (host_address x),
          unknown,
        )
        refl

  -- On a server's end point in use, with an engine that raises no exception and tables of
  -- hosts and iterators whose free lists link exactly their free cells: when the engine knows
  -- no address of the first host, printHosts ends the process at the assertion of
  -- Host::address, ahead of its own test of the address.
  pub unknown_address_stops :
      (s : Server) (w : World) (h e x rounds : ℕ) (xs : List Obj)
      → s.ep ≡ ref end_point (pos h)
      → object_at end_point w h ≡ some e
      → IsValidAt host_iterator w
      → IsValidAt host w
      → E.objects w.log (end_point_hosts e) ≡ x ∷ xs
      → ((l : Log) → E.maybe_object l (host_address x) ≡ none)
      → print_hosts E (suc rounds) s w ≡ stops assertion
  unfolding print_hosts print_host_rounds EndPoint.hosts cusp_endpoint_hosts
  unknown_address_stops s w h e x rounds xs at_end live vi vh listed unknown =
      let c = end_point_hosts e in
      let a = alloc-Allocated w.host_iterator (x ∷ xs) vi in
      let w1 : World = record w { host_iterator = a.after; log = c ∷ w.log } in
      let here : object_at host_iterator w1 a.handle ≡ some (x ∷ xs) =
        a.stored a.handle ∙ rw (==-refl a.handle) refl in
      let p = host_iterator_step w1 a.handle x xs here a.valid vh in
      let q = p.1 in
      let at_host : object_at host q.after q.handle ≡ some x =
        q.objects q.handle ∙ rw (==-refl q.handle) refl in
      rw
        (
          at_end,
          bucket_sub-returns end_point w h e live,
          quiet w.log c,
          listed,
          bucket_alloc-returns host_iterator (record w { log = c ∷ w.log }) (x ∷ xs) a,
        )
        (rw (p.0) (
          rw (q.returned) (
            rw (print_host-unknown q.after q.handle x at_host (unknown (key_log E x q.after.log)))
              refl)))
