-- ===== src/Cusp/Behaviour/HostLoop.antt =====
-- cusp.cpp: a loop over a host iterator, as clients write it, which collects what `next` returns while
-- `hasNext` holds. A bound on the rounds stands for the loop.
use gocusp.Base.{
  List, [], arith, if◌then◌else◌, length, refl, some, suc, zero, ℕ, ◌∙◌, ◌∷◌, ◌≡◌, ◌≤◌,
}
use gocusp.Cusp.Behaviour.Exhausted.{host_exhausted}
use gocusp.Cusp.Behaviour.Iteration.{host_iterator_step}
use gocusp.Cusp.Iterators.{host_iterator_has_next, host_iterator_next}
use gocusp.Cusp.Lifecycle.{==-refl, IsValidAt, object_at, unused-ne-used}
use gocusp.Cusp.Ref.{Ref, ref}
use gocusp.Ml.{pos}
use gocusp.Runtime.Handles.{host, host_iterator}
use gocusp.Runtime.World.{M, Run, World, pure, returns, ◌>>=◌}

pub collect_hosts : ℕ → Ref host_iterator → M (List (Ref host))
collect_hosts zero it = pure []
collect_hosts (suc rounds) it =
    let rest = collect_hosts rounds it in
    do
      more ← host_iterator_has_next it
      if more then (do h ← host_iterator_next it; hs ← rest; pure (h ∷ hs)) else pure []

-- The objects stand for the values, one each.
abbrev pub AllStand : World → List (Ref host) → List ℕ → Type 0
AllStand w [] [] = Unit {0}
AllStand w (r ∷ rs) (x ∷ xs) =
    ((h : ℕ) × (r ≡ ref host (pos h)) × (object_at host w h ≡ some x)) × AllStand w rs xs
AllStand w _ _ = ⊥

pub record Collected (w : World) (i : ℕ) (xs : List ℕ) (run : Run (List (Ref host))) : Type 0 where
  pub hosts : List (Ref host)
  pub after : World
  pub returned : run ≡ returns hosts after
  pub stand : AllStand after hosts xs
  pub kept : (j y : ℕ) → object_at host w j ≡ some y → object_at host after j ≡ some y
  pub finished : object_at host_iterator after i ≡ some []

none_left :
    (w : World) (i rounds : ℕ)
    → object_at host_iterator w i ≡ some []
    → Collected w i [] (collect_hosts rounds (ref host_iterator (pos i)) w)
unfolding collect_hosts
none_left w i zero live = record {
  hosts = [];
  after = w;
  returned = refl;
  stand = tt;
  kept = λ j y e. e;
  finished = live;
}
none_left w i (suc rounds) live = record {
  hosts = [];
  after = w;
  returned = rw ((host_exhausted w i live).0) refl;
  stand = tt;
  kept = λ j y e. e;
  finished = live;
}

-- The loop over a host iterator whose handle is in use, with `hasNext` and `next`, ends after as
-- many rounds as values are left: its objects stand for these values, one each and in order,
-- every host handle that was in use stands for what it stood for, and the iterator is left with
-- no values. The free lists of the buckets of hosts and of host iterators must link exactly
-- their free cells.
pub collect_hosts-Collected :
    (xs : List ℕ) (w : World) (i rounds : ℕ)
    → length xs ≤ rounds
    → object_at host_iterator w i ≡ some xs
    → IsValidAt host_iterator w
    → IsValidAt host w
    → Collected w i xs (collect_hosts rounds (ref host_iterator (pos i)) w)
unfolding collect_hosts
collect_hosts-Collected [] w i rounds enough live vi vk = none_left w i rounds live
collect_hosts-Collected (x ∷ xs) w i zero enough live vi vk = absurd (omega arith)
collect_hosts-Collected (x ∷ xs) w i (suc rounds) enough live vi vk =
    let p = host_iterator_step w i x xs live vi vk in
    let s = p.1 in
    let advanced : object_at host_iterator s.after i ≡ some xs =
      s.advanced i ∙ rw (==-refl i) refl in
    let r =
      collect_hosts-Collected xs s.after i rounds (omega arith) advanced s.valid_iterators
        s.valid in
    let here : object_at host s.after s.handle ≡ some x =
      s.objects s.handle ∙ rw (==-refl s.handle) refl in
    record {
      hosts = ref host (pos s.handle) ∷ r.hosts;
      after = r.after;
      returned = rw (p.0, s.returned, r.returned) refl;
      stand = ((s.handle, refl, r.kept s.handle x here), r.stand);
      kept = λ j y e.
          r.kept j y
            (s.objects j ∙ rw (unused-ne-used (object_at host w) s.handle j y s.fresh e) e);
      finished = r.finished;
    }
