-- ===== src/Cusp/Behaviour/Hosts.antt =====
-- cusp.cpp: Host::connect, Host::address and Host::key.
use gocusp.Cusp.Host
use gocusp.Base.{false, if◌then◌else◌, inl, inr, none, refl, some, ℕ, ◌==◌, ◌∷◌, ◌≡◌, ◌⊎◌}
use gocusp.Cusp.Classes.{class_of}
use gocusp.Cusp.Lifecycle.{IsValidAt, bucket_alloc-returns, bucket_sub-returns, object_at}
use gocusp.Cusp.Lifecycle.Destruct.{destruct_unused}
use gocusp.Cusp.Ref.{Ref, assert_handle, ref}
use gocusp.IdBucket.Alloc.{alloc-Allocated}
use gocusp.Ml.{negsuc, pos, subscript, ℤ}
use gocusp.Runtime.Engine.{Call, Engine, Log, host_address, host_connect}
use gocusp.Runtime.Exports.Host.{cusp_host_address, cusp_host_connect}
use gocusp.Runtime.Handles.{Kind, Value, address, host, out_stream, public_key, slot}
use gocusp.Runtime.World.{
  Run, World, and_then, assertion, exception, pure, returns, stops, ◌>>=◌, ◌>>◌,
}

-- What an action that allocates a handle of `k` for the object `x` leaves, after the engine call `c`.
pub record Opened (k : Kind) (w : World) (c : Call) (x : Value k) (run : Run (Ref k)) : Type 0 where
  pub handle : ℕ
  pub after : World
  pub returned : run ≡ returns (ref k (pos handle)) after
  pub fresh : object_at k w handle ≡ none
  pub objects : (j : ℕ) → object_at k after j ≡ (if handle == j then some x else object_at k w j)
  pub only : after ≡ (slot k).put (record w { log = c ∷ w.log }) ((slot k).get after)
  pub valid : IsValidAt k after

-- The log is no part of a bucket.
pub get-log :
    (k : Kind) (w : World) (l : Log) → (slot k).get (record w { log = l }) ≡ (slot k).get w
get-log address w l = refl
get-log k w l = refl

module _ (E : Engine) (w : World) (h x service : ℕ) (live : object_at host w h ≡ some x) where
  -- On a host handle in use, if the engine raises no exception and the free list of the bucket
  -- of out streams links exactly its free cells, `connect` asks the engine for a new stream of
  -- that host and returns an OutStream with a handle that was not in use, for that stream; no
  -- other handle and no other part of the SML side changes, and the free list again links
  -- exactly the free cells.
  pub connect-Opened :
      IsValidAt out_stream w
      → E.raises w.log (host_connect x service) ≡ false
      → Opened out_stream w
          (host_connect x service)
          (E.object w.log (host_connect x service))
          (Host.connect E (ref host (pos h)) service w)
  unfolding Host.connect cusp_host_connect
  connect-Opened v quiet =
      let c = host_connect x service in
      let w1 : World = record w { log = c ∷ w.log } in
      let a = alloc-Allocated w.out_stream (E.object w.log c) v in
      record {
        handle = a.handle;
        after = record w1 { out_stream = a.after };
        returned =
            rw (bucket_sub-returns host w h x live, quiet)
              (rw (bucket_alloc-returns out_stream w1 (E.object w.log c) a));
        fresh = a.fresh;
        objects = a.stored;
        only = refl;
        valid = a.valid;
      }

-- The same handle as an object of another class.
abbrev pub retag : {j : Kind} (k : Kind) → Run (Ref j) → Run (Ref k)
retag k (returns r w) = returns (ref k r.handle) w
retag k (stops e) = stops e

retag_asserted :
    (j k : Kind) (h : ℤ) (w : World)
    → (do assert_handle h; pure (ref k h)) w ≡ retag k ((do assert_handle h; pure (ref j h)) w)
retag_asserted j k (pos n) w = refl
retag_asserted j k (negsuc n) w = refl

retag_run :
    (j k : Kind) (r : Run ℤ)
    → and_then r (λ h. do assert_handle h; pure (ref k h))
      ≡ retag k (and_then r (λ h. do assert_handle h; pure (ref j h)))
retag_run j k (returns h w) = retag_asserted j k h w
retag_run j k (stops e) = refl

key_by_handle :
    (E : Engine) (h : ℤ) (w : World)
    → Host.key E (ref host h) w ≡ retag public_key (Host.address_of E (ref host h) w)
unfolding Host.key Host.address_of
key_by_handle E (pos n) w = retag_run address public_key (cusp_host_address E (pos n) w)
key_by_handle E (negsuc n) w = refl

pub key_is_address :
    (E : Engine) (h : Ref host) (w : World)
    → Host.key E h w ≡ retag public_key (Host.address_of E h w)
key_is_address E h w = key_by_handle E h.handle w

module _ (E : Engine) (w : World) (h x a : ℕ) (live : object_at host w h ≡ some x) where
  -- `address` of a host in use whose address is known.
  pub address-Opened :
      IsValidAt address w
      → E.raises w.log (host_address x) ≡ false
      → E.maybe_object w.log (host_address x) ≡ some a
      → Opened address w (host_address x) a (Host.address_of E (ref host (pos h)) w)
  unfolding Host.address_of cusp_host_address
  address-Opened v quiet known =
      let w1 : World = record w { log = host_address x ∷ w.log } in
      let r = alloc-Allocated w.address a v in
      record {
        handle = r.handle;
        after = record w1 { address = r.after };
        returned =
            rw (bucket_sub-returns host w h x live, quiet, known)
              (rw (bucket_alloc-returns address w1 a r));
        fresh = r.fresh;
        objects = r.stored;
        only = refl;
        valid = r.valid;
      }

-- Where the SML side holds no public key and the free list of the bucket of addresses links
-- exactly its free cells, taking Host::key of a host in use whose address is known, and
-- destructing that key again, ends the process at the assertion, or on Subscript.
pub key_lifetime_stops :
    (E : Engine) (w : World) (h x a : ℕ)
    → object_at host w h ≡ some x
    → IsValidAt address w
    → E.raises w.log (host_address x) ≡ false
    → E.maybe_object w.log (host_address x) ≡ some a
    → ((n : ℕ) → object_at public_key w n ≡ none)
    → let run = (do k ← Host.key E (ref host (pos h)); (class_of public_key).destruct k) in
      (run w ≡ stops assertion) ⊎ (run w ≡ stops (exception subscript))
key_lifetime_stops E w h x a live v quiet known no_keys =
    let o = address-Opened E w h x a live v quiet known in
    let no_key : object_at public_key o.after o.handle ≡ none = rw o.only (no_keys o.handle) in
    elim (destruct_unused public_key o.after o.handle no_key) [
      | inl e ↦ inl (rw (key_is_address E (ref host (pos h)) w, o.returned) e)
      | inr e ↦ inr (rw (key_is_address E (ref host (pos h)) w, o.returned) e)
    ]
