-- ===== src/Util/SingleCycle/Opening.antt =====
-- singlecycleconn.cpp and bidiconn.cpp: a connection to a host, as its constructor leaves it.
use gocusp.Cusp.Host
use gocusp.Cusp.OutStream
use gocusp.Base.{
  ==_iff, Bool, Bool-cases, Option, ap, false, if◌then◌else◌, inl, inr, none, refl, some, true, ℕ,
  ◌==◌, ◌∙◌, ◌∷◌, ◌≡◌,
}
use gocusp.Cusp.Behaviour.Hosts.{connect-Opened}
use gocusp.Cusp.Behaviour.Links.{host_listen-live}
use gocusp.Cusp.Behaviour.Streams.{engine_step-quiet, write-live}
use gocusp.Cusp.Classes.{class_of}
use gocusp.Cusp.Host.{out_streams}
use gocusp.Cusp.Lifecycle.{==-refl, IsValidAt, class_of-eq, object_at, unused-ne-used}
use gocusp.Cusp.Lifecycle.Assign.{assign_to_invalid}
use gocusp.Cusp.Lifecycle.Copy.{copy-Copied}
use gocusp.Cusp.Lifecycle.Destruct.{destruct-Destructed}
use gocusp.Cusp.Ref.{handle_class, ref}
use gocusp.IdBucket.{Bucket}
use gocusp.IdBucket.Chain.{IsValid}
use gocusp.IdBucket.View.{contents}
use gocusp.Ml.{minus_one, pos}
use gocusp.Runtime.Engine.{
  Bytes, Call, Engine, Log, Obj, Pointer, host_connect, host_listen, host_unlisten,
  out_stream_write,
}
use gocusp.Runtime.Handles.{Kind, host, in_stream, out_stream}
use gocusp.Runtime.World.{Run, World, returns}
use gocusp.Stream.Heap.{same}
use gocusp.Util.BiDiConn.{BiDiConn, of_host, on_contact, service_bytes}
use gocusp.Util.BufferedOutStream.{unused}

abbrev pub is_unlisten : Call → Bool
is_unlisten (host_unlisten x service) = true
is_unlisten c = false

no_handle : (k : Kind) → (class_of k).invalid ≡ ref k minus_one
unfolding handle_class
no_handle k = rw (class_of-eq k) refl

unused_before :
    {A : Type 0} (f : ℕ → Option A) (n j : ℕ) (x : A) {o : Option A}
    → o ≡ (if n == j then some x else f j)
    → o ≡ none
    → f j ≡ none
unused_before f n j x e unused = elim (Bool-cases (n == j)) [
  | inl same ↦ let e1 = rw same at e in cc
  | inr apart ↦ let e1 = rw apart at e in cc
]

-- A handle `n` comes, then `m`, and then `n` goes.
first_gone :
    {A : Type 0} (f : ℕ → Option A) (n m j : ℕ) (x : A) {o p : Option A}
    → f n ≡ none
    → (m == n) ≡ false
    → o ≡ (if n == j then some x else f j)
    → p ≡ (if m == j then some x else o)
    → (if n == j then none else p) ≡ (if m == j then some x else f j)
first_gone f n m j x unused apart e e' = elim (Bool-cases (n == j)) [
  | inl same ↦ rw same (rw (← (==_iff n j).0 same) (rw (apart, unused) refl))
  | inr other ↦ rw other (e' ∙ ap (λ q. if m == j then some x else q) (rw other at e))
]

abbrev pub stream_of : Engine → (x service : ℕ) → World → ℕ
stream_of E x service w = E.object w.log (host_connect x service)

-- The fields of a connection that the host is asked to connect back to, as `back`
abbrev pub conn_of : (service back own os : ℕ) → BiDiConn
conn_of service back own os = record {
  remote_service = service;
  local_service = back;
  host_ = ref host (pos own);
  is = ref in_stream minus_one;
  os = ref out_stream (pos os);
  contact_set = false;
  contact = none;
}

pub record Made (E : Engine) (self : Pointer) (x service back : ℕ) (w : World) (run : Run BiDiConn)
    : Type 0 where
  pub own : ℕ
  pub os : ℕ
  pub hosts : Bucket Obj
  pub out_streams : Bucket Obj
  pub returned :
      run
      ≡ returns (conn_of service back own os) (record w {
        host = hosts;
        out_stream = out_streams;
        log =
            out_stream_write (stream_of E x service w) (service_bytes back) self
            ∷ host_listen x self
            ∷ host_connect x service
            ∷ w.log;
      })
  pub fresh_host : object_at host w own ≡ none
  pub at_hosts : (j : ℕ) → contents hosts j ≡ (if own == j then some x else object_at host w j)
  pub valid_hosts : IsValid hosts
  pub fresh_stream : object_at out_stream w os ≡ none
  pub at_streams :
      (j : ℕ)
      → contents out_streams j
        ≡ (if os == j then some (stream_of E x service w) else object_at out_stream w j)
  pub valid_streams : IsValid out_streams

module _ (E : Engine) (quiet : (l : Log) (c : Call) → is_unlisten c ≡ false → E.raises l c ≡ false)
    (self : Pointer) (bound : (self == 0) ≡ false) where
  pub quiet_write :
      (w : World) (h s : ℕ) (bytes : Bytes)
      → object_at out_stream w h ≡ some s
      → OutStream.write E (ref out_stream (pos h)) bytes self w
        ≡ returns tt (record w { log = out_stream_write s bytes self ∷ w.log })
  quiet_write w h s bytes live =
      write-live E w h s self bound bytes live
      ∙ engine_step-quiet E (out_stream_write s bytes self) w
          (quiet w.log (out_stream_write s bytes self) refl)

  module _ (x service back : ℕ) (named : (l : Log) → E.word l (host_listen x self) ≡ back)
      (nonzero : (back == 0) ≡ false) where
    of_host-runs :
        (w w1 w2 w3 w4 w5 w6 : World) (h first own os : ℕ)
        → (class_of host).copy (ref host (pos h)) w ≡ returns (ref host (pos own)) w1
        → Host.connect E (ref host (pos own)) service w1 ≡ returns (ref out_stream (pos first)) w2
        → (class_of out_stream).assign (ref out_stream minus_one) (ref out_stream (pos first)) w2
          ≡ returns (ref out_stream (pos os)) w3
        → Host.listen E (ref host (pos own)) self w3 ≡ returns back w4
        → OutStream.write E (ref out_stream (pos os)) (service_bytes back) self w4 ≡ returns tt w5
        → (class_of out_stream).destruct (ref out_stream (pos first)) w5 ≡ returns tt w6
        → of_host E self (ref host (pos h)) service w ≡ returns (conn_of service back own os) w6
    unfolding of_host on_contact
    of_host-runs w w1 w2 w3 w4 w5 w6 h first own os a b c d e f =
        rw (a, b, no_handle in_stream, no_handle out_stream) (rw c (rw (d, e, f) refl))

    pub of_host-Made :
        (w : World) (h : ℕ)
        → object_at host w h ≡ some x
        → IsValidAt host w
        → IsValidAt out_stream w
        → Made E self x service back w (of_host E self (ref host (pos h)) service w)
    of_host-Made w h live vh vo =
        let s = stream_of E x service w in
        let c = copy-Copied host w h x vh live in
        let w1 : World = record w { host = c.after.host } in
        let here : object_at host w1 c.handle ≡ some x =
          c.change.objects c.handle ∙ rw (==-refl c.handle) refl in
        let o =
          connect-Opened E w1 c.handle x service here vo
            (quiet w.log (host_connect x service) refl) in
        let w2 : World = record w1 {
          out_stream = o.after.out_stream;
          log = host_connect x service ∷ w.log;
        } in
        let first : object_at out_stream w2 o.handle ≡ some s =
          o.objects o.handle ∙ rw (==-refl o.handle) refl in
        let d = copy-Copied out_stream w2 o.handle s o.valid first in
        let w3 : World = record w2 { out_stream = d.after.out_stream } in
        let w4 : World = record w3 { log = host_listen x self ∷ w3.log } in
        let there : object_at out_stream w4 d.handle ≡ some s =
          d.change.objects d.handle ∙ rw (==-refl d.handle) refl in
        let w5 : World = record w4 {
          log = out_stream_write s (service_bytes back) self ∷ w4.log;
        } in
        let apart : (d.handle == o.handle) ≡ false =
          unused-ne-used (object_at out_stream w2) d.handle o.handle s d.fresh first in
        let still : object_at out_stream w5 o.handle ≡ some s =
          d.change.objects o.handle ∙ rw apart first in
        let f = destruct-Destructed out_stream w5 o.handle s d.change.valid still in
        record {
          own = c.handle;
          os = d.handle;
          hosts = c.after.host;
          out_streams = f.after.out_stream;
          returned =
              of_host-runs w w1 w2 w3 w4 w5 (record w5 { out_stream = f.after.out_stream }) h
                o.handle c.handle d.handle
                (c.returned ∙ ap (returns (ref host (pos c.handle))) c.change.only)
                (o.returned ∙ ap (returns (ref out_stream (pos o.handle))) o.only)
                (assign_to_invalid out_stream (ref out_stream (pos o.handle))
                  (ref out_stream (pos d.handle)) w2 w3
                  (d.returned ∙ ap (returns (ref out_stream (pos d.handle))) d.change.only))
                (host_listen-live E w3 c.handle x self here bound
                    (quiet w3.log (host_listen x self) refl)
                    (ap (λ b. b == 0) (named w3.log) ∙ nonzero)
                  ∙ ap (λ b. returns b w4) (named w3.log))
                (quiet_write w4 d.handle s (service_bytes back) there)
                (f.returned ∙ ap (returns tt) f.change.only);
          fresh_host = c.fresh;
          at_hosts = c.change.objects;
          valid_hosts = c.change.valid;
          fresh_stream =
              unused_before (object_at out_stream w) o.handle d.handle s (o.objects d.handle)
                d.fresh;
          at_streams = λ j.
              f.change.objects j
              ∙ first_gone (object_at out_stream w) o.handle d.handle j s o.fresh apart
                  (o.objects j) (d.change.objects j);
          valid_streams = f.change.valid;
        }
