-- ===== src/Demo/Server/Lists.antt =====
-- server.cpp: the lists of suites, hosts and channels that the server prints. The texts of a line are
-- asked for in the order in which they are printed. A loop over an iterator has a bound on its rounds,
-- and `garbage` is what an unset variable holds.
use gocusp.Cusp.Address
use gocusp.Cusp.EndPoint
use gocusp.Cusp.Host
use gocusp.Base.{if◌then◌else◌, suc, zero, ℕ}
use gocusp.Cusp.Classes.{class_of}
use gocusp.Cusp.Iterators.{
  Channel, channel_iterator_has_next, channel_iterator_next, host_iterator_has_next,
  host_iterator_next,
}
use gocusp.Cusp.Ref.{Ref}
use gocusp.Cusp.Suite.{has_next, next, symmetric_next}
use gocusp.Cusp.SuiteQueries.{
  public_key_suite_cost, public_key_suite_name, symmetric_suite_cost, symmetric_suite_name,
}
use gocusp.Demo.Server.{Server}
use gocusp.Ml.{is_nonneg, ℤ}
use gocusp.Runtime.Engine.{Engine}
use gocusp.Runtime.Handles.{address, channel_iterator, host, host_iterator}
use gocusp.Runtime.World.{M, pure, ◌>>=◌, ◌>>◌}

module _ (E : Engine) where
  -- The loops of `run` over the members of a set of suites
  unfoldable pub print_public_key_suites : ℕ → ℕ → M (Unit {0})
  print_public_key_suites zero set' = pure tt
  print_public_key_suites (suc rounds) set' =
      let rest = print_public_key_suites rounds (next set').1 in
      if has_next set'
      then (do public_key_suite_name E (next set').0; public_key_suite_cost E (next set').0; rest)
      else pure tt

  unfoldable pub print_symmetric_suites : ℕ → ℕ → M (Unit {0})
  print_symmetric_suites zero set' = pure tt
  print_symmetric_suites (suc rounds) set' =
      let rest = print_symmetric_suites rounds (symmetric_next set').1 in
      if has_next set'
      then (do
        symmetric_suite_name E (symmetric_next set').0
        symmetric_suite_cost E (symmetric_next set').0
        rest)
      else pure tt

  -- One round of printHosts. The objects of the round go out of scope at its end.
  unfoldable pub print_host : Ref host → M (Unit {0})
  print_host h = do
    Host.key_str E h
    addr ← Host.address_of E h
    if is_nonneg addr.handle then (do Address.to_string E addr; pure tt) else pure tt
    (class_of address).destruct addr
    (class_of host).destruct h

  unfoldable pub print_host_rounds : ℕ → Ref host_iterator → M (Unit {0})
  print_host_rounds zero it = pure tt
  print_host_rounds (suc rounds) it =
      let rest = print_host_rounds rounds it in
      do
        more ← host_iterator_has_next it
        if more then (do h ← host_iterator_next it; print_host h; rest) else pure tt

  unfoldable pub print_hosts : ℕ → Server → M (Unit {0})
  print_hosts rounds s = do
    it ← EndPoint.hosts E s.ep
    print_host_rounds rounds it
    (class_of host_iterator).destruct it

  -- ch.address() and ch.host() return copies, which go out of scope with their line.
  unfoldable pub print_channel : Channel → M (Unit {0})
  print_channel ch = do
    a ← (class_of address).copy ch.addr
    Address.to_string E a
    (class_of address).destruct a
    h ← (class_of host).copy ch.h
    (class_of host).destruct h
    if is_nonneg h.handle
        then (do
          again ← (class_of host).copy ch.h
          Host.key_str E again
          (class_of host).destruct again)
        else pure tt
    (class_of host).destruct ch.h
    (class_of address).destruct ch.addr

  unfoldable pub print_channel_rounds : ℤ → ℕ → Ref channel_iterator → M (Unit {0})
  print_channel_rounds garbage zero it = pure tt
  print_channel_rounds garbage (suc rounds) it =
      let rest = print_channel_rounds garbage rounds it in
      do
        more ← channel_iterator_has_next it
        if more then (do ch ← channel_iterator_next garbage it; print_channel ch; rest) else pure tt

  unfoldable pub print_channels : ℤ → ℕ → Server → M (Unit {0})
  print_channels garbage rounds s = do
    it ← EndPoint.channels E s.ep
    print_channel_rounds garbage rounds it
    (class_of channel_iterator).destruct it
