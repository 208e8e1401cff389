-- ===== src/Tests/Classes.antt =====
-- The classes of cusp.cpp at a concrete state of the SML side.
use gocusp.Cusp.Host
use gocusp.Cusp.InStream
use gocusp.Cusp.OutStream
use gocusp.Base.{[], arith, false, none, refl, suc, zero, ℕ, ◌∷◌, ◌≡◌, ◌⊎◌}
use gocusp.Cusp.Behaviour.Exhausted.{channel_garbage}
use gocusp.Cusp.Behaviour.HostLoop.{Collected, collect_hosts, collect_hosts-Collected}
use gocusp.Cusp.Behaviour.Hosts.{Opened, connect-Opened, key_lifetime_stops}
use gocusp.Cusp.Classes.{class_of}
use gocusp.Cusp.Iterators.{channel_iterator_has_next, channel_iterator_next}
use gocusp.Cusp.Lifecycle.{Changes, object_at}
use gocusp.Cusp.Lifecycle.Assign.{Assigned, assign-Assigned, copy-destruct}
use gocusp.Cusp.Lifecycle.Copy.{Copied, copy-Copied}
use gocusp.Cusp.Lifecycle.Destruct.{Destructed, destruct-Destructed, destruct_unused}
use gocusp.Cusp.Ref.{ref}
use gocusp.IdBucket.{new}
use gocusp.Ml.{pos, subscript}
use gocusp.Runtime.Engine.{host_connect}
use gocusp.Runtime.Handles.{channel_iterator, host, host_iterator, out_stream, public_key}
use gocusp.Runtime.World.{World, assertion, exception, returns, start, stops, ◌>>=◌}
use gocusp.Tests.Samples.{busy, one_iterator-IsValid, sample_engine, spent, two_used-IsValid}

copy-Copied_example : Copied out_stream busy 2 20
copy-Copied_example = copy-Copied out_stream busy 2 20 two_used-IsValid refl

assign-Assigned_example : Assigned host busy 3 2 20
assign-Assigned_example = assign-Assigned host busy 3 2 10 20 two_used-IsValid refl refl

destruct-Destructed_example : Destructed host busy 3
destruct-Destructed_example = destruct-Destructed host busy 3 10 two_used-IsValid refl

destruct_unused_example :
    ((class_of host).destruct (ref host (pos 1)) busy ≡ stops assertion)
    ⊎ ((class_of host).destruct (ref host (pos 1)) busy ≡ stops (exception subscript))
destruct_unused_example = destruct_unused host busy 1 refl

copy-destruct_example :
    (after : World) × (((do c ← (class_of host).copy (ref host (pos 3)); (class_of host).destruct c)
        busy)
      ≡ returns tt after)
    × Changes host busy after (object_at host busy)
copy-destruct_example = copy-destruct host busy 3 10 two_used-IsValid refl

connect-Opened_example :
    Opened out_stream busy
      (host_connect 20 80)
      7
      (Host.connect sample_engine (ref host (pos 2)) 80 busy)
connect-Opened_example = connect-Opened sample_engine busy 2 20 80 refl two_used-IsValid refl

no_public_keys : (n : ℕ) → object_at public_key busy n ≡ none
unfolding start new
no_public_keys zero = refl
no_public_keys (suc zero) = refl
no_public_keys (suc (suc zero)) = refl
no_public_keys (suc (suc (suc zero))) = refl
no_public_keys (suc (suc (suc (suc n)))) = refl

key_lifetime_stops_example :
    let run = (do
      k ← Host.key sample_engine (ref host (pos 2))
      (class_of public_key).destruct k) in
    (run busy ≡ stops assertion) ⊎ (run busy ≡ stops (exception subscript))
key_lifetime_stops_example =
    key_lifetime_stops sample_engine busy 2 20 8 refl two_used-IsValid refl refl no_public_keys

channel_garbage_example :
    (channel_iterator_has_next (ref channel_iterator (pos 3)) spent ≡ returns false spent)
    × ((channel_iterator_next (pos 41) (ref channel_iterator (pos 3)) spent ≡ stops assertion)
        ⊎ (channel_iterator_next (pos 41) (ref channel_iterator (pos 3)) spent
            ≡ stops (exception subscript)))
unfolding start new
channel_garbage_example = channel_garbage spent 3 41 refl refl

collect_hosts-Collected_example :
    Collected busy 3 (5 ∷ 6 ∷ []) (collect_hosts 2 (ref host_iterator (pos 3)) busy)
collect_hosts-Collected_example =
    collect_hosts-Collected (5 ∷ 6 ∷ []) busy 3 2 (omega arith) refl one_iterator-IsValid
      two_used-IsValid
