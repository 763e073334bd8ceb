-- ===== src/Session/Longest.antt =====
-- That `Drain` gathers as much as it may.
use zem.Base.{
  ℕ, zero, suc, ◌+◌, ◌≤◌, ◌<◌, ◌≡◌, refl, sym, ap, ◌∙◌, ◌⊎◌, inl, inr, true, false, List, [], ◌∷◌,
  arith, length, drop, subst, if◌then◌else◌, Bool-cases,
}
use zem.Session.State.{WriteData, Batch, max_iov_per_write, max_batch_bytes, size_t_values}
use zem.Session.Write.{seq_size, is_full, add_item, gather, empty_batch}
use zem.Session.Batch.{
  total, InArray, Gathered, add_item-InArray, add_item-bytes, add_item-items, gather-Gathered,
  empty_batch-InArray, gather_lem,
}

-- The next item would not fit: the array has no room for its buffers, or the bytes would be too many.
abbrev pub Overflows : Batch → WriteData → Type 0
Overflows b it =
    (max_iov_per_write < b.used_iov + seq_size it) ⊎ (max_batch_bytes < b.bytes + it.total_bytes)

is_full-Overflows :
    (b : Batch) (it : WriteData)
    → b.bytes + it.total_bytes < size_t_values
    → is_full b it ≡ true
    → Overflows b it
unfolding is_full
is_full-Overflows b it small h = ground arith

gather_stops :
    (b : Batch) (x : WriteData) (q : List WriteData) → is_full b x ≡ true → gather b (x ∷ q) ≡ b
unfolding gather
gather_stops b x q h = ap (λ c. if c then b else gather (add_item b x) q) h

gather_goes_on :
    (b : Batch) (x : WriteData) (q : List WriteData)
    → is_full b x ≡ false
    → gather b (x ∷ q) ≡ gather (add_item b x) q
unfolding gather
gather_goes_on b x q h = ap (λ c. if c then b else gather (add_item b x) q) h

-- The items that a batch has left behind.
abbrev pub Leaves : ℕ → List WriteData → WriteData → Type 0
Leaves k q it = (rest : List WriteData) × (drop k q ≡ it ∷ rest)

none_left : {it : WriteData} (k : ℕ) → Leaves k [] it → ⊥
none_left zero (rest, e) = cc
none_left (suc k) (rest, e) = cc

first_left :
    (x : WriteData) {it : WriteData} (q : List WriteData) (k : ℕ)
    → k ≡ 0
    → Leaves k (x ∷ q) it
    → x ≡ it
first_left x q zero h (rest, e) = cc
first_left x q (suc k) h l = absurd (omega arith)

left_behind :
    (x : WriteData) {it : WriteData} (q : List WriteData) (k j : ℕ)
    → k ≡ suc j
    → Leaves k (x ∷ q) it
    → Leaves j q it
left_behind x q zero j h l = absurd (omega arith)
left_behind x q (suc k) j h (rest, e) =
    let same : j ≡ k = omega arith in (rest, ap (λ n. drop n q) same ∙ e)

-- Gathering that takes `k` items of a longer queue ends before one that does not fit.
gather-Overflows :
    (b : Batch) (q : List WriteData) (k : ℕ) {it : WriteData}
    → InArray b
    → b.bytes + total q < size_t_values
    → (gather b q).items ≡ b.items + k
    → Leaves k q it
    → Overflows (gather b q) it
gather-Overflows b [] k v small n l = absurd (none_left k l)
gather-Overflows b (x ∷ q) k {it} v small n l = elim (Bool-cases (is_full b x)) [
  | inl full ↦
      let stopped = gather_stops b x q full in
      let none_taken : k ≡ 0 = omega (arith, n, ap (λ (c : Batch). c.items) stopped) in
      subst (λ c. Overflows c it) (sym stopped)
        (subst (Overflows b) (first_left x q k none_taken l)
          (is_full-Overflows b x (omega arith) full))
  | inr room ↦
      let more = gather_goes_on b x q room in
      let v' = add_item-InArray b x v room in
      let small' = add_item-bytes b x (total q) small in
      let g = gather-Gathered (add_item b x) q v' small' in
      let taken : k ≡ suc g.taken =
        omega (arith, n, ap (λ (c : Batch). c.items) more, g.count, add_item-items b x) in
      subst (λ c. Overflows c it) (sym more)
        (gather-Overflows (add_item b x) q g.taken v' small' g.count
          (left_behind x q k g.taken taken l))
]

-- What a batch that was gathered from `q` is.
pub record Longest (q : List WriteData) (b : Batch) : Type 0 where
  pub gathered : Gathered empty_batch q b
  pub takes_one : (q ≡ []) ⊎ (1 ≤ b.items)
  pub all_that_fits :
      (b.items ≡ length q) ⊎ ((it : WriteData) × Leaves b.items q it × Overflows b it)

leaves :
    (k : ℕ) (q : List WriteData)
    → k ≤ length q
    → (k ≡ length q) ⊎ ((it : WriteData) × Leaves k q it)
leaves zero [] h = inl refl
leaves zero (it ∷ q) h = inr (it, (q, refl))
leaves (suc k) [] h = absurd (omega arith)
leaves (suc k) (x ∷ q) h = elim (leaves k q (omega arith)) [
  | inl all ↦ inl (ap suc all)
  | inr (it, l) ↦ inr (it, l)
]

-- What `Drain` does with a queue whose bytes fit a `std::size_t`: it takes items from the front, at least one
-- of a queue that is not empty; their number, bytes and contents are the batch's; it uses no entry
-- past the end of its array of 32 buffers, and past 256 KB it takes a single item. And it takes as many as
-- it may: all of them, or with the next one the buffers would be more than 32 or the bytes more than
-- 256 KB.
pub gather-Longest :
    (q : List WriteData) → total q < size_t_values → Longest q (gather empty_batch q)
gather-Longest q small =
    let (g, one) = gather_lem q small in
    record {
      gathered = g;
      takes_one = one;
      all_that_fits =
          elim (leaves (gather empty_batch q).items q (omega (arith, g.count, g.within))) [
            | inl all ↦ inl all
            | inr (it, l) ↦ inr (
              it,
              l,
              gather-Overflows empty_batch q (gather empty_batch q).items empty_batch-InArray
                  (omega arith) (omega arith) l,
            )
          ];
    }
