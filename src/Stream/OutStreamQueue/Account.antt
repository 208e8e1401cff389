-- ===== src/Stream/OutStreamQueue/Account.antt =====
-- out-stream-queue.sml: where the bytes of a stream are, as an invariant of the queue.
use gocusp.Base.{
  Bool, Bool-cases, List, Option, [], ap, append-nil, arith, false, if◌then◌else◌, inl, inr, length,
  length-append, none, refl, some, sym, true, ℕ, ◌++◌, ◌+◌, ◌∙◌, ◌∷◌, ◌≡◌,
}
use gocusp.Ml.{pos}
use gocusp.Runtime.Engine.{Bytes, Pointer}
use gocusp.Stream.Heap.{Heap, Segment}
use gocusp.Stream.OutStreamQueue.{
  Notice, Queue, QueueEvent, am_rts, call_writer, fill_with, is_reset, is_shut, is_some,
  make_progress, neg_inf, new_queue, progress, rts, segment, tell, update_rts, writer_ready,
}
use gocusp.Stream.OutStreamQueue.Pull.{within}

abbrev pub sum_of : (Segment → ℕ) → List Segment → ℕ
sum_of g [] = 0
sum_of g (s ∷ ss) = g s + sum_of g ss

pub sum_of-append :
    (g : Segment → ℕ) (ss ts : List Segment) → sum_of g (ss ++ ts) ≡ sum_of g ss + sum_of g ts
sum_of-append g [] ts = omega arith
sum_of-append g (s ∷ ss) ts = omega (arith, sum_of-append g ss ts)

-- What holds of a result that is there.
abbrev pub OnSome {ℓ κ} : {A : Type ℓ} → (A → Type κ) → Option A → Type κ
OnSome P none = Unit
OnSome P (some a) = P a

pub within-OnSome {ℓ κ} :
    {A : Type ℓ} (P : A → Type κ) (b : Bool) (r : Option A) → OnSome P r → OnSome P (within b r)
within-OnSome P true r p = p
within-OnSome P false r p = tt

-- A measure of bytes that adds up over their parts, such as their length, or how often one occurs.
pub record IsAdditive (f : Bytes → ℕ) : Type 0 where
  pub nil : f [] ≡ 0
  pub append : (xs ys : Bytes) → f (xs ++ ys) ≡ f xs + f ys

abbrev pub on : (Bytes → ℕ) → Segment → ℕ
on f s = f s.bytes

pub length-IsAdditive : IsAdditive length
length-IsAdditive = record { nil = refl; append = length-append }

abbrev pub waiting : Option Bytes → Bytes
waiting none = []
waiting (some b) = b

module _ (H : Heap) where
  -- The segments `out` are those of the packets of which nothing is known yet, and `held` those that
  -- are being taken for the next packet.
  pub record IsAccounted (q : Queue H) (out held : List Segment) : Type 0 where
    pub flying : (g : Segment → ℕ) → H.total g q.inflight ≡ sum_of g out
    pub counted : q.inflight_bytes ≡ sum_of (on length) out
    pub queued :
        is_reset q.state ≡ false
        → q.retransmit_bytes ≡ pos (H.total (on length) q.retransmit + sum_of (on length) held)
    -- While the stream is not reset, every byte that left the buffer waits, is under way, or has
    -- arrived.
    pub kept :
        is_reset q.state ≡ false
        → (f : Bytes → ℕ) → IsAdditive f
        → H.total (on f) q.retransmit
            + sum_of (on f) held
            + sum_of (on f) out
            + sum_of (on f) q.acked
          ≡ f q.moved
    pub in_order : is_reset q.state ≡ false → q.given ≡ q.moved ++ waiting q.buffer
    -- After a shutdown nothing waits in the buffer.
    pub no_more : is_shut q.state ≡ true → q.buffer ≡ none
    -- A stream that is reset has nothing left to send.
    pub dropped :
        is_reset q.state ≡ true
        → (q.buffer ≡ none) × ((g : Segment → ℕ) → H.total g q.retransmit ≡ 0)

  pub new_queue-IsAccounted : IsAccounted (new_queue H) [] []
  unfolding new_queue
  new_queue-IsAccounted = record {
    flying = λ g. H.total-new g;
    counted = refl;
    queued = λ open_yet. ap pos (omega (arith, H.total-new (on length)));
    kept = λ open_yet f add. omega (arith, H.total-new (on f), add.nil);
    in_order = λ open_yet. refl;
    no_more = λ s. refl;
    dropped = λ r. cc;
  }

  -- What a queue tells its callback is no part of the account, nor is its barrier.
  pub tell-IsAccounted :
      (e : QueueEvent) (q : Queue H) (out held : List Segment)
      → IsAccounted q out held
      → IsAccounted (tell H e q) out held
  tell-IsAccounted e q out held a = record {
    flying = a.flying;
    counted = a.counted;
    queued = a.queued;
    kept = a.kept;
    in_order = a.in_order;
    no_more = a.no_more;
    dropped = a.dropped;
  }

  pub update_rts-IsAccounted :
      (q : Queue H) (out held : List Segment)
      → IsAccounted q out held
      → IsAccounted (update_rts H q) out held
  unfolding update_rts
  update_rts-IsAccounted q out held a =
      tell-IsAccounted (rts (if am_rts H q then q.priority else neg_inf)) q out held a

  -- What the client does in its callbacks keeps the account.
  abbrev pub Keeps : (Notice → Queue H → Queue H) → Type 0
  Keeps answer =
      (n : Notice) (q : Queue H) (out held : List Segment)
      → IsAccounted q out held
      → IsAccounted (answer n q) out held

  module _ (answer : Notice → Queue H → Queue H) (keeps : Keeps answer) where
    pub call_writer-IsAccounted :
        (n : Pointer → Notice) (w : Option Pointer) (q : Queue H) (out held : List Segment)
        → IsAccounted q out held
        → IsAccounted (call_writer H answer n w q) out held
    call_writer-IsAccounted n none q out held a = a
    call_writer-IsAccounted n (some p) q out held a = keeps (n p) q out held a

    fill_with-IsAccounted :
        (buffer : Bytes) (q : Queue H) (out held : List Segment)
        → q.buffer ≡ some buffer
        → IsAccounted q out held
        → IsAccounted (fill_with H answer buffer q) out held
    fill_with-IsAccounted buffer q out held full a = record {
      flying = a.flying;
      counted = a.counted;
      queued = λ open_yet. rw (a.queued open_yet) (
          ap pos
            (omega (arith, H.total-push (on length) (segment q.send_offset buffer) q.retransmit)));
      kept = λ open_yet f add. omega (
        arith,
        a.kept open_yet f add,
        add.append q.moved buffer,
        H.total-push (on f) (segment q.send_offset buffer) q.retransmit,
      );
      in_order =
          λ open_yet. rw full at (a.in_order open_yet) ∙ sym (append-nil (q.moved ++ buffer));
      no_more = λ s. refl;
      dropped = λ r. absurd (some-ne-none buffer q.buffer full (a.dropped r).0);
    }
      where
        some-ne-none : (b : Bytes) (o : Option Bytes) → o ≡ some b → o ≡ none → ⊥
        some-ne-none b o e e' = cc

    progress-IsAccounted :
        (b : Option Bytes) (q : Queue H) (out held : List Segment)
        → q.buffer ≡ b
        → IsAccounted q out held
        → IsAccounted (progress H answer b q) out held
    progress-IsAccounted none q out held full a = a
    progress-IsAccounted (some buffer) q out held full a =
        call_writer-IsAccounted writer_ready q.writer (update_rts H (fill_with H answer buffer q))
          out held
          (update_rts-IsAccounted (fill_with H answer buffer q) out held
            (fill_with-IsAccounted buffer q out held full a))

    pub make_progress-IsAccounted :
        (q : Queue H) (out held : List Segment)
        → IsAccounted q out held
        → IsAccounted (make_progress H answer q) out held
    unfolding make_progress
    make_progress-IsAccounted q out held a = elim (Bool-cases (is_some (H.peek q.retransmit))) [
      | inl waiting ↦ rw waiting (update_rts-IsAccounted q out held a)
      | inr nothing ↦ rw nothing (progress-IsAccounted q.buffer q out held refl a)
    ]
