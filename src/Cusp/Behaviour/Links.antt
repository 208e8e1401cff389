-- ===== src/Cusp/Behaviour/Links.antt =====
-- cusp.cpp: connecting to a host and listening to it, and `os = host.connect(service);` for an object
-- `os` that has no handle yet.
use gocusp.Cusp.Host
use gocusp.Base.{==_iff, Bool-cases, ap, false, inl, inr, refl, some, true, ℕ, ◌==◌, ◌∙◌, ◌∷◌, ◌≡◌}
use gocusp.Cusp.Behaviour.Hosts.{connect-Opened}
use gocusp.Cusp.Classes.{class_of}
use gocusp.Cusp.Lifecycle.{==-refl, IsValidAt, bucket_sub-returns, object_at, unused-ne-used}
use gocusp.Cusp.Lifecycle.Assign.{assign_to_invalid}
use gocusp.Cusp.Lifecycle.Copy.{copy-Copied}
use gocusp.Cusp.Lifecycle.Destruct.{destruct-Destructed}
use gocusp.Cusp.Ref.{ref}
use gocusp.Ml.{minus_one, pos}
use gocusp.Runtime.Engine.{Engine, host_connect, host_listen, host_unlisten}
use gocusp.Runtime.Exports.Host.{cusp_host_listen, cusp_host_unlisten}
use gocusp.Runtime.Handles.{host, out_stream}
use gocusp.Runtime.World.{World, engine_exception, returns, stops}

-- The objects that `os = host.connect(service)` leaves.
pub record Linked (E : Engine) (w : World) (h x service : ℕ) : Type 0 where
  pub first : ℕ
  pub handle : ℕ
  pub opened : World
  pub copied : World
  pub after : World
  pub connected :
      Host.connect E (ref host (pos h)) service w ≡ returns (ref out_stream (pos first)) opened
  pub assigned :
      (class_of out_stream).assign (ref out_stream minus_one) (ref out_stream (pos first)) opened
      ≡ returns (ref out_stream (pos handle)) copied
  pub dropped :
      (class_of out_stream).destruct (ref out_stream (pos first)) copied ≡ returns tt after
  pub live : object_at out_stream after handle ≡ some (E.object w.log (host_connect x service))
  pub only :
      after ≡ record w { log = host_connect x service ∷ w.log; out_stream = after.out_stream }

pub host_connect-Linked :
    (E : Engine) (w : World) (h x service : ℕ)
    → object_at host w h ≡ some x
    → IsValidAt out_stream w
    → E.raises w.log (host_connect x service) ≡ false
    → Linked E w h x service
host_connect-Linked E w h x service live v quiet =
    let s = E.object w.log (host_connect x service) in
    let o = connect-Opened E w h x service live v quiet in
    let there : object_at out_stream o.after o.handle ≡ some s =
      o.objects o.handle ∙ rw (==-refl o.handle) refl in
    let c = copy-Copied out_stream o.after o.handle s o.valid there in
    let apart : (c.handle == o.handle) ≡ false =
      unused-ne-used (object_at out_stream o.after) c.handle o.handle s c.fresh there in
    let first_still : object_at out_stream c.after o.handle ≡ some s =
      c.change.objects o.handle ∙ rw apart there in
    let d = destruct-Destructed out_stream c.after o.handle s c.change.valid first_still in
    let apart' : (o.handle == c.handle) ≡ false = elim (Bool-cases (o.handle == c.handle)) [
      | inl e ↦ cc ((==_iff o.handle c.handle).0 e)
      | inr e ↦ e
    ] in
    record {
      first = o.handle;
      handle = c.handle;
      opened = o.after;
      copied = c.after;
      after = d.after;
      connected = o.returned;
      assigned =
          assign_to_invalid out_stream (ref out_stream (pos o.handle))
            (ref out_stream (pos c.handle)) o.after c.after c.returned;
      dropped = d.returned;
      live =
          d.change.objects c.handle
          ∙ rw apart' (c.change.objects c.handle ∙ rw (==-refl c.handle) refl);
      only =
          d.change.only
          ∙ ap (λ (u : World). record u { out_stream = d.after.out_stream })
              (c.change.only
                ∙ ap (λ (u : World). record u { out_stream = c.after.out_stream }) o.only);
    }

pub host_listen-live :
    (E : Engine) (w : World) (h x handler : ℕ)
    → object_at host w h ≡ some x
    → (handler == 0) ≡ false
    → E.raises w.log (host_listen x handler) ≡ false
    → (E.word w.log (host_listen x handler) == 0) ≡ false
    → Host.listen E (ref host (pos h)) handler w
      ≡ returns
          (E.word w.log (host_listen x handler))
          (record w { log = host_listen x handler ∷ w.log })
unfolding Host.listen cusp_host_listen
host_listen-live E w h x handler live bound quiet named =
    rw (bound, bucket_sub-returns host w h x live, quiet, named) refl

pub host_unlisten-live :
    (E : Engine) (w : World) (h x service : ℕ)
    → object_at host w h ≡ some x
    → E.raises w.log (host_unlisten x service) ≡ false
    → Host.unlisten E (ref host (pos h)) service w
      ≡ returns tt (record w { log = host_unlisten x service ∷ w.log })
unfolding Host.unlisten cusp_host_unlisten
host_unlisten-live E w h x service live quiet = rw (bucket_sub-returns host w h x live, quiet) refl

pub host_unlisten-raises :
    (E : Engine) (w : World) (h x service : ℕ)
    → object_at host w h ≡ some x
    → E.raises w.log (host_unlisten x service) ≡ true
    → Host.unlisten E (ref host (pos h)) service w ≡ stops engine_exception
unfolding Host.unlisten cusp_host_unlisten
host_unlisten-raises E w h x service live raised =
    rw (bucket_sub-returns host w h x live, raised) refl
