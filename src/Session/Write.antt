-- ===== src/Session/Write.antt =====
-- `Drain` and the completion of its `async_write`.
use zem.Base.{
  ℕ, ◌+◌, Bool, true, false, not, ◌&&◌, ◌||◌, none, some, List, [], ◌∷◌, ◌++◌, leb, ltb, ◌==◌,
  if◌then◌else◌, drop, take, Option,
}
use mathlib.Core.List.{flatten}
use zem.Session.State.{
  WriteData, Batch, TcpSession, max_iov_per_write, max_batch_bytes, low_water, add_size, sub_size,
  shutdown, woken,
}

-- `it->body && !it->body->empty()`
unfoldable pub has_body : WriteData → Bool
has_body it = elim it.body [ none ↦ false | some [] ↦ false | some (b ∷ bs) ↦ true ]

unfoldable pub seq_size : WriteData → ℕ
unfolding has_body
seq_size it = if has_body it then 2 else 1

-- The test that ends the gathering before `it`.
unfoldable pub is_full : Batch → WriteData → Bool
unfolding seq_size
is_full b it =
    not (b.items == 0)
    && (ltb max_iov_per_write (b.used_iov + seq_size it)
        || ltb max_batch_bytes (add_size b.bytes it.total_bytes))

-- The entries of `bufs` that `it` takes.
unfoldable pub buffers : WriteData → List (List ℕ)
buffers it = it.header ∷ elim it.body [ none ↦ [] | some [] ↦ [] | some (b ∷ bs) ↦ (b ∷ bs) ∷ [] ]

unfoldable pub add_item : Batch → WriteData → Batch
unfolding seq_size buffers
add_item b it = record {
  items = b.items + 1;
  bytes = add_size b.bytes it.total_bytes;
  used_iov = b.used_iov + seq_size it;
  bufs = b.bufs ++ buffers it;
}

-- The loop over the queue.
unfoldable pub gather : Batch → List WriteData → Batch
gather b [] = b
gather b (it ∷ rest) = let next = gather (add_item b it) rest in if is_full b it then b else next

abbrev pub empty_batch : Batch
empty_batch = record { items = 0; bytes = 0; used_iov = 0; bufs = [] }

unfoldable pub is_empty : List WriteData → Bool
is_empty [] = true
is_empty (x ∷ xs) = false

unfoldable pub drain : TcpSession → TcpSession
unfolding is_empty
drain s =
    if s.is_closed || is_empty s.write_queue
    then record s { is_writing = false }
    else record s { flight = some (gather empty_batch s.write_queue) }

-- `m_backpressure` is cleared at the low water mark, and `m_resume_read` cancelled.
unfoldable pub relieve : TcpSession → TcpSession
unfolding woken
relieve s =
    if s.backpressure && leb s.pending_bytes low_water
    then record s { backpressure = false; reading = woken s.reading }
    else s

-- The completion handler on success: `async_write` has given all of `bufs` to the socket.
unfoldable pub completed : Batch → TcpSession → TcpSession
completed b s = drain (
    relieve (record s {
      flight = none;
      sent = s.sent ++ flatten b.bufs;
      write_queue = drop b.items s.write_queue;
      pending_bytes = sub_size s.pending_bytes b.bytes;
    }))

abbrev pub in_flight : Option Batch → List ℕ
in_flight none = []
in_flight (some b) = flatten b.bufs

-- The completion handler on an error: `async_write` has given the first `n` bytes of `bufs` to the socket,
-- which the handler does not look at.
unfoldable pub failed : ℕ → TcpSession → TcpSession
failed n s =
    shutdown
      (record s { flight = none; is_writing = false; torn = s.torn ++ take n (in_flight s.flight) })
