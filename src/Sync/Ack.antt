-- ===== src/Sync/Ack.antt =====
-- The acknowledged sequence number of a batch.
use gaming_cafe_management.Prelude.{
  ℕ, ◌+◌, ◌≤◌, ◌<◌, ◌≡◌, refl, true, false, List, [], ◌∷◌, map, mem, arith, All,
}
use gaming_cafe_management.Shared.{OfflineEventState, accepted, duplicate, conflicted}
use gaming_cafe_management.Sync.{
  SyncEventResult, compute_ack_seq, ack_loop, insert_by, sort_by, counts,
}

abbrev seqs : List SyncEventResult → List ℕ
seqs rs = map (λ r. r.seq) rs

abbrev by_seq : List SyncEventResult → List SyncEventResult
by_seq rs = sort_by (λ r. r.seq) rs

abbrev Sorted : List SyncEventResult → Type 0
Sorted [] = Unit
Sorted (r ∷ rs) = All (λ s. r.seq ≤ s.seq) rs × Sorted rs

All-insert :
    (a : ℕ) (r : SyncEventResult) (rs : List SyncEventResult)
    → a ≤ r.seq
    → All (λ s. a ≤ s.seq) rs
    → All (λ s. a ≤ s.seq) (insert_by (λ s. s.seq) r rs)
All-insert a r [] le h = (le, tt)
All-insert a r (x ∷ rs) le h = ground (arith, All-insert a r rs le)

All-trans :
    (a b : ℕ) (rs : List SyncEventResult)
    → a ≤ b
    → All (λ s. b ≤ s.seq) rs
    → All (λ s. a ≤ s.seq) rs
All-trans a b [] le h = tt
All-trans a b (x ∷ rs) le h = (omega (arith, h.0), All-trans a b rs le h.1)

Sorted-insert :
    (r : SyncEventResult) (rs : List SyncEventResult)
    → Sorted rs
    → Sorted (insert_by (λ s. s.seq) r rs)
Sorted-insert r [] h = (tt, tt)
Sorted-insert r (x ∷ rs) h =
    ground (arith, Sorted-insert r rs, All-insert x.seq r rs, All-trans r.seq x.seq rs)

Sorted-sort : (rs : List SyncEventResult) → Sorted (by_seq rs)
Sorted-sort [] = tt
Sorted-sort (r ∷ rs) = Sorted-insert r (by_seq rs) (Sorted-sort rs)

mem-insert :
    (k : ℕ) (r : SyncEventResult) (rs : List SyncEventResult)
    → mem k (seqs (insert_by (λ s. s.seq) r rs)) ≡ mem k (seqs (r ∷ rs))
mem-insert k r [] = ground arith
mem-insert k r (x ∷ rs) = ground (arith, mem-insert k r rs)

mem-sort : (k : ℕ) (rs : List SyncEventResult) → mem k (seqs (by_seq rs)) ≡ mem k (seqs rs)
mem-sort k [] = ground arith
mem-sort k (r ∷ rs) = ground (arith, mem-insert k r (by_seq rs), mem-sort k rs)

counts-any : (state : OfflineEventState) → counts state ≡ true
counts-any accepted = refl
counts-any duplicate = refl
counts-any conflicted = refl

-- A number below all of the sequence numbers is none of them.
mem-below :
    (k a : ℕ) (rs : List SyncEventResult)
    → k < a
    → All (λ s. a ≤ s.seq) rs
    → mem k (seqs rs) ≡ false
mem-below k a [] lt h = ground arith
mem-below k a (x ∷ rs) lt h = ground (arith, mem-below k a rs lt)

loop_le : (ack : ℕ) (rs : List SyncEventResult) → ack ≤ ack_loop ack rs
loop_le ack [] = omega arith
loop_le ack (r ∷ rs) = ground (arith, loop_le ack rs, loop_le r.seq rs)

loop_covers :
    (ack k : ℕ) (rs : List SyncEventResult) → ack < k → k ≤ ack_loop ack rs → mem k (seqs rs) ≡ true
loop_covers ack k [] lt le = ground arith
loop_covers ack k (r ∷ rs) lt le = ground (arith, loop_covers ack k rs, loop_covers r.seq k rs)

loop_stops :
    (ack : ℕ) (rs : List SyncEventResult) → Sorted rs → mem (ack_loop ack rs + 1) (seqs rs) ≡ false
loop_stops ack [] h = ground arith
loop_stops ack (r ∷ rs) h = ground (
  arith,
  loop_stops ack rs,
  loop_stops r.seq rs,
  counts-any r.state,
  loop_le ack rs,
  loop_le r.seq rs,
  loop_covers ack (ack + 1) rs,
  mem-below (ack + 1) r.seq rs,
)

-- Every number above the last one that the agent knew and up to the acknowledged number is the
-- sequence number of a result of the batch.
pub compute_ack_seq-covers :
    (last k : ℕ) (results : List SyncEventResult)
    → last < k
    → k ≤ compute_ack_seq last results
    → mem k (map (λ r. r.seq) results) ≡ true
unfolding compute_ack_seq
compute_ack_seq-covers last k results lt le =
    ground (arith, loop_covers last k (by_seq results), mem-sort k results)

-- The acknowledged number of a batch is at least the last one that the agent knew, and the number
-- after it is not the sequence number of a result: the agent could not be told a higher one.
pub compute_ack_seq-stops :
    (last : ℕ) (results : List SyncEventResult)
    → let ack = compute_ack_seq last results in
      (last ≤ ack) × (mem (ack + 1) (map (λ r. r.seq) results) ≡ false)
unfolding compute_ack_seq
compute_ack_seq-stops last results = (
  loop_le last (by_seq results),
  ground (
    arith,
    loop_stops last (by_seq results) (Sorted-sort results),
    mem-sort (ack_loop last (by_seq results) + 1) results,
  ),
)
