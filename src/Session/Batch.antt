-- ===== src/Session/Batch.antt =====
-- What `Drain` gathers from the queue.
use zem.Base.{
  ℕ, suc, ◌+◌, ◌≤◌, ◌<◌, ◌≡◌, refl, sym, ap, ◌∙◌, ◌⊎◌, inl, inr, false, Option, none, some, List,
  [], ◌∷◌, ◌++◌, append-nil, append_assoc, arith, length, take, Bool-cases, length-append,
}
use mathlib.Core.List.{flatten}
use zem.Session.State.{WriteData, Batch, max_iov_per_write, max_batch_bytes, size_t_values}
use zem.Session.Write.{seq_size, is_full, buffers, add_item, gather, empty_batch}

-- What an item puts on the wire.
abbrev pub body_bytes : Option (List ℕ) → List ℕ
body_bytes none = []
body_bytes (some b) = b

abbrev pub frame_bytes : WriteData → List ℕ
frame_bytes it = it.header ++ body_bytes it.body

abbrev pub stream : List WriteData → List ℕ
stream [] = []
stream (it ∷ q) = frame_bytes it ++ stream q

-- The bytes that a queue holds.
abbrev pub total : List WriteData → ℕ
total [] = 0
total (it ∷ q) = it.total_bytes + total q

pub flatten-buffers : (it : WriteData) → flatten (buffers it) ≡ frame_bytes it
unfolding buffers flatten
flatten-buffers it = by_body it.header it.body
  where
    by_body :
        (header : List ℕ) (body : Option (List ℕ))
        → flatten (buffers (record { header = header; body = body; total_bytes = it.total_bytes }))
          ≡ header ++ body_bytes body
    by_body header none = refl
    by_body header (some []) = refl
    by_body header (some (b ∷ bs)) = ap (◌++◌ header) (append-nil (b ∷ bs))

pub length-buffers : (it : WriteData) → length (buffers it) ≡ seq_size it
unfolding buffers seq_size
length-buffers it = by_body it.body
  where
    by_body :
        (body : Option (List ℕ))
        → let it' : WriteData = record it { body = body } in length (buffers it') ≡ seq_size it'
    by_body none = refl
    by_body (some []) = refl
    by_body (some (b ∷ bs)) = refl

pub flatten_append : (xs ys : List (List ℕ)) → flatten (xs ++ ys) ≡ flatten xs ++ flatten ys
unfolding flatten
flatten_append [] ys = refl
flatten_append (x ∷ xs) ys =
    ap (◌++◌ x) (flatten_append xs ys) ∙ sym (append_assoc x (flatten xs) (flatten ys))

pub seq_size_bounds : (it : WriteData) → (1 ≤ seq_size it) × (seq_size it ≤ 2)
unfolding seq_size
seq_size_bounds it = ground arith

-- A batch stays inside the array: it has used at most all of its entries, and an empty batch none.
pub record InArray (b : Batch) : Type 0 where
  pub used : b.used_iov ≤ max_iov_per_write
  pub at_start : b.items ≡ 0 → b.used_iov ≡ 0
  pub exact : length b.bufs ≡ b.used_iov
  pub small : (b.items ≤ 1) ⊎ (b.bytes ≤ max_batch_bytes)

pub add_item-InArray :
    (b : Batch) (it : WriteData) → InArray b → is_full b it ≡ false → InArray (add_item b it)
unfolding is_full add_item
add_item-InArray b it v h = record {
  used = ground (arith, seq_size_bounds it, v.used, v.at_start);
  at_start = λ e. absurd (omega arith);
  exact = omega (arith, length-append b.bufs (buffers it), length-buffers it, v.exact);
  small = ground arith;
}

-- How gathering from `q` behind `b` ends: with `taken` more items.
pub record Gathered (b : Batch) (q : List WriteData) (r : Batch) : Type 0 where
  pub taken : ℕ
  pub count : r.items ≡ b.items + taken
  pub within : taken ≤ length q
  pub sum : r.bytes ≡ b.bytes + total (take taken q)
  pub content : flatten r.bufs ≡ flatten b.bufs ++ stream (take taken q)
  pub array : InArray r

gather_more :
    (b : Batch) (it : WriteData) (q : List WriteData) {r : Batch}
    → b.bytes + it.total_bytes < size_t_values
    → Gathered (add_item b it) q r
    → Gathered b (it ∷ q) r
unfolding add_item
gather_more b it q {r} small g = record {
  taken = suc g.taken;
  count = omega (arith, g.count);
  within = omega (arith, g.within);
  sum = omega (arith, g.sum);
  content =
      g.content
      ∙ ap (λ s. s ++ stream (take g.taken q))
          (flatten_append b.bufs (buffers it) ∙ ap (◌++◌ (flatten b.bufs)) (flatten-buffers it))
      ∙ append_assoc (flatten b.bufs) (frame_bytes it) (stream (take g.taken q));
  array = g.array;
}

pub add_item-bytes :
    (b : Batch) (it : WriteData) (n : ℕ)
    → b.bytes + (it.total_bytes + n) < size_t_values
    → (add_item b it).bytes + n < size_t_values
unfolding add_item
add_item-bytes b it n h = omega arith

pub add_item-items : (b : Batch) (it : WriteData) → (add_item b it).items ≡ b.items + 1
unfolding add_item
add_item-items b it = refl

pub gather-Gathered :
    (b : Batch) (q : List WriteData)
    → InArray b
    → b.bytes + total q < size_t_values
    → Gathered b q (gather b q)
unfolding gather
gather-Gathered b [] v small = record {
  taken = 0;
  count = omega arith;
  within = omega arith;
  sum = omega arith;
  content = sym (append-nil (flatten b.bufs));
  array = v;
}
gather-Gathered b (it ∷ q) v small = elim (Bool-cases (is_full b it)) [
  | inl full ↦ rw full (record {
    taken = 0;
    count = omega arith;
    within = omega arith;
    sum = omega arith;
    content = sym (append-nil (flatten b.bufs));
    array = v;
  })
  | inr room ↦ rw room (
      gather_more b it q (omega arith) (
        gather-Gathered (add_item b it) q (add_item-InArray b it v room)
          (add_item-bytes b it (total q) small)))
]

pub empty_batch-InArray : InArray empty_batch
empty_batch-InArray = record {
  used = omega arith;
  at_start = λ e. refl;
  exact = refl;
  small = inl (omega arith);
}

gather_takes_one :
    (it : WriteData) (q : List WriteData)
    → gather empty_batch (it ∷ q) ≡ gather (add_item empty_batch it) q
unfolding gather is_full
gather_takes_one it q = refl

-- What `Drain` does with a queue whose bytes fit a `std::size_t`: it takes items from the front, at least one
-- of a queue that is not empty; their number, bytes and contents are the batch's; it uses no entry
-- past the end of its array of 32 buffers; and past 256 KB it takes a single item.
pub gather_lem :
    (q : List WriteData)
    → total q < size_t_values
    → Gathered empty_batch q (gather empty_batch q)
      × ((q ≡ []) ⊎ (1 ≤ (gather empty_batch q).items))
unfolding is_full add_item
gather_lem [] small = (gather-Gathered empty_batch [] empty_batch-InArray (omega arith), inl refl)
gather_lem (it ∷ q) small = (
  gather-Gathered empty_batch (it ∷ q) empty_batch-InArray (omega arith),
  inr (
      rw (gather_takes_one it q)
        (first (gather-Gathered (add_item empty_batch it) q after (fit small)))),
)
  where
    after : InArray (add_item empty_batch it)
    after = add_item-InArray empty_batch it empty_batch-InArray refl

    fit : total (it ∷ q) < size_t_values → (add_item empty_batch it).bytes + total q < size_t_values
    fit h = add_item-bytes empty_batch it (total q) (omega arith)

    first : {r : Batch} → Gathered (add_item empty_batch it) q r → 1 ≤ r.items
    first g = omega (arith, g.count, one)
      where
        one : (add_item empty_batch it).items ≡ 1
        one = refl
