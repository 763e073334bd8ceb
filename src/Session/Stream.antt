-- ===== src/Session/Stream.antt =====
-- What goes out on the socket, and which functions leave it alone.
use zem.Base.{
  ℕ, zero, suc, ◌≡◌, refl, sym, ap, ◌∙◌, Bool, true, not, ◌&&◌, ◌||◌, Option, none, some, List, [],
  ◌∷◌, ◌++◌, append_assoc, append-nil, leb, ltb, take, drop, if◌then◌else◌, if_cases,
}
use mathlib.Core.Path.{subst}
use mathlib.Core.List.{flatten}
use zem.Protocol.{BigEndian}
use zem.Session.State.{WriteData, Batch, TcpSession, shutdown, low_water, high_water, sub_size}
use zem.Session.Write.{is_empty, drain, relieve, completed}
use zem.Session.Send.{enqueue}
use zem.Session.Batch.{stream, frame_bytes}
use zem.Session.Invariant.{InFlight, Flying}

-- The bytes of the writes that ended well, and those that the queue still holds.
abbrev pub outgoing : TcpSession → List ℕ
outgoing s = s.sent ++ stream s.write_queue

pub stream-take-drop :
    (n : ℕ) (q : List WriteData) → stream (take n q) ++ stream (drop n q) ≡ stream q
stream-take-drop zero q = refl
stream-take-drop (suc n) [] = refl
stream-take-drop (suc n) (it ∷ q) =
    append_assoc (frame_bytes it) (stream (take n q)) (stream (drop n q))
    ∙ ap (◌++◌ (frame_bytes it)) (stream-take-drop n q)

stream-append :
    (q : List WriteData) (it : WriteData) → stream (q ++ it ∷ []) ≡ stream q ++ frame_bytes it
stream-append [] it = append-nil (frame_bytes it)
stream-append (x ∷ q) it =
    ap (◌++◌ (frame_bytes x)) (stream-append q it)
    ∙ sym (append_assoc (frame_bytes x) (stream q) (frame_bytes it))

-- `Quiet s t`: from `s` to `t` neither the socket nor the queue was given anything.
pub record Quiet (s t : TcpSession) : Type 0 where
  pub sent : t.sent ≡ s.sent
  pub queue : t.write_queue ≡ s.write_queue

still : (s : TcpSession) → Quiet s s
still s = record { sent = refl; queue = refl }

pub outgoing-Quiet : {s t : TcpSession} → Quiet s t → outgoing t ≡ outgoing s
outgoing-Quiet {s} {t} q =
    ap (λ x. x ++ stream t.write_queue) q.sent ∙ ap (λ x. s.sent ++ stream x) q.queue

pub shutdown-Quiet : (s : TcpSession) → Quiet s (shutdown s)
unfolding shutdown
shutdown-Quiet s =
    if_cases (Quiet s) s.is_closed _ _ (λ e. still s) (λ e. record { sent = refl; queue = refl })

pub drain-Quiet : (s : TcpSession) → Quiet s (drain s)
unfolding drain
drain-Quiet s =
    if_cases (Quiet s) (s.is_closed || is_empty s.write_queue) _ _
      (λ e. record { sent = refl; queue = refl }) (λ e. record { sent = refl; queue = refl })

pub relieve-Quiet : (s : TcpSession) → Quiet s (relieve s)
unfolding relieve
relieve-Quiet s =
    if_cases (Quiet s) (s.backpressure && leb s.pending_bytes low_water) _ _
      (λ e. record { sent = refl; queue = refl }) (λ e. still s)

-- A write that ends well moves its bytes from the front of the queue to the socket.
pub outgoing-completed :
    (s : TcpSession) (b : Batch) → InFlight b s.write_queue → outgoing (completed b s) ≡ outgoing s
unfolding completed
outgoing-completed s b f =
    outgoing-Quiet (drain-Quiet (relieve unloaded))
    ∙ outgoing-Quiet (relieve-Quiet unloaded)
    ∙ append_assoc s.sent (flatten b.bufs) (stream (drop b.items s.write_queue))
    ∙ ap (λ x. s.sent ++ (x ++ stream (drop b.items s.write_queue))) f.content
    ∙ ap (◌++◌ s.sent) (stream-take-drop b.items s.write_queue)
  where
    unloaded : TcpSession
    unloaded = record s {
      flight = none;
      sent = s.sent ++ flatten b.bufs;
      write_queue = drop b.items s.write_queue;
      pending_bytes = sub_size s.pending_bytes b.bytes;
    }

pub outgoing-enqueue :
    (it : WriteData) (s : TcpSession) → outgoing (enqueue it s) ≡ outgoing s ++ frame_bytes it
unfolding enqueue
outgoing-enqueue it s =
    if_cases (λ t. outgoing t ≡ outgoing s ++ frame_bytes it) (not s.is_writing) _ _
      (λ e. outgoing-Quiet (drain-Quiet (record queued { is_writing = true })) ∙ grown) (λ e. grown)
  where
    queued : TcpSession
    queued = record s {
      backpressure =
          if not s.backpressure && ltb high_water s.pending_bytes then true else s.backpressure;
      write_queue = s.write_queue ++ it ∷ [];
    }

    grown : s.sent ++ stream (s.write_queue ++ it ∷ []) ≡ outgoing s ++ frame_bytes it
    grown =
        ap (◌++◌ s.sent) (stream-append s.write_queue it)
        ∙ sym (append_assoc s.sent (stream s.write_queue) (frame_bytes it))

module _ (e : BigEndian) where
  pub Flying-some :
      (c w : Bool) (q : List WriteData) (f : Option Batch) (b : Batch)
      → f ≡ some b
      → Flying c w q f
      → InFlight b q
  Flying-some c w q f b h v = (subst (Flying c w q) h v).1
