-- ===== src/Demo/Server/HostRound.antt =====
-- server.cpp: one round of the loop of Server::printHosts.
use gocusp.Cusp.Address
use gocusp.Cusp.Host
use gocusp.Base.{ap, false, if◌then◌else◌, none, refl, some, ℕ, ◌==◌, ◌∙◌, ◌∷◌, ◌≡◌}
use gocusp.Cusp.Behaviour.Hosts.{address-Opened}
use gocusp.Cusp.Classes.{class_of}
use gocusp.Cusp.Lifecycle.{==-refl, IsValidAt, bucket_sub-returns, hide-fresh, object_at}
use gocusp.Cusp.Lifecycle.Destruct.{destruct-Destructed}
use gocusp.Cusp.Ref.{ref}
use gocusp.Demo.Server.Greeting.{key_log, key_str-live}
use gocusp.Demo.Server.Lists.{print_host}
use gocusp.IdBucket.{Bucket}
use gocusp.IdBucket.Chain.{IsValid}
use gocusp.IdBucket.View.{contents}
use gocusp.Ml.{pos}
use gocusp.Runtime.Engine.{Bytes, Call, Engine, Log, Obj, address_to_string, host_address}
use gocusp.Runtime.Exports.EndPoint.{cusp_address_to_string}
use gocusp.Runtime.Handles.{address, host}
use gocusp.Runtime.World.{Run, World, returns}

-- What printing one host leaves: the host's object is gone, and so is that of its address.
pub record HostPrinted (w : World) (h : ℕ) (run : Run (Unit {0})) : Type 0 where
  pub hosts : Bucket Obj
  pub addresses : Bucket Obj
  pub log : Log
  pub returned : run ≡ returns tt (record w { host = hosts; address = addresses; log = log })
  pub freed : (j : ℕ) → contents hosts j ≡ (if h == j then none else object_at host w j)
  pub same : (j : ℕ) → contents addresses j ≡ object_at address w j
  pub valid : IsValid hosts
  pub valid_addresses : IsValid addresses

module _ (E : Engine) (quiet : (l : Log) (c : Call) → E.raises l c ≡ false) where
  address_string-live :
      (w : World) (h a : ℕ)
      → object_at address w h ≡ some a
      → (text : Bytes) × (Address.to_string E (ref address (pos h)) w
          ≡ returns text (record w { log = address_to_string a ∷ w.log }))
  unfolding Address.to_string cusp_address_to_string
  address_string-live w h a live = (
    E.text w.log (address_to_string a),
    rw (bucket_sub-returns address w h a live, quiet w.log (address_to_string a)) refl,
  )

  pub print_host-Printed :
      (w : World) (h x a : ℕ)
      → object_at host w h ≡ some x
      → IsValidAt host w
      → IsValidAt address w
      → E.maybe_object (key_log E x w.log) (host_address x) ≡ some a
      → HostPrinted w h (print_host E (ref host (pos h)) w)
  unfolding print_host
  print_host-Printed w h x a live vh va known =
      let k = key_str-live E w h x quiet live in
      let l1 = key_log E x w.log in
      let w1 : World = record w { log = l1 } in
      let o = address-Opened E w1 h x a live va (quiet l1 (host_address x)) known in
      let l2 : Log = host_address x ∷ l1 in
      let w2 : World = record w { address = o.after.address; log = l2 } in
      let opened : Host.address_of E (ref host (pos h)) w1
          ≡ returns (ref address (pos o.handle)) w2 =
        o.returned ∙ ap (returns (ref address (pos o.handle))) o.only in
      let here : object_at address w2 o.handle ≡ some a =
        o.objects o.handle ∙ rw (==-refl o.handle) refl in
      let t = address_string-live w2 o.handle a here in
      let w3 : World = record w2 { log = address_to_string a ∷ l2 } in
      let d = destruct-Destructed address w3 o.handle a o.valid here in
      let w4 : World = record w3 { address = d.after.address } in
      let dropped : (class_of address).destruct (ref address (pos o.handle)) w3 ≡ returns tt w4 =
        d.returned ∙ ap (returns tt) d.change.only in
      let g = destruct-Destructed host w4 h x vh live in
      record {
        hosts = g.after.host;
        addresses = d.after.address;
        log = address_to_string a ∷ l2;
        returned = rw (k.1, opened, t.1, dropped) (g.returned ∙ ap (returns tt) g.change.only);
        freed = g.change.objects;
        same = λ j.
            d.change.objects j
            ∙ hide-fresh (object_at address w) o.handle j a o.fresh (o.objects j);
        valid = g.change.valid;
        valid_addresses = d.change.valid;
      }
