-- ===== src/Realtime/Ring.antt =====
-- The ring of entries in apps/server/src/modules/realtime/service.ts keeps its shape.
use mathlib.Core.Path.{subst}
use gaming_cafe_management.Prelude.{
  ℕ, ◌+◌, ◌≤◌, ◌<◌, ◌≡◌, ◌≢◌, refl, sym, ap, ◌∙◌, inl, inr, Bool-cases, false, List, [], ◌∷◌, ◌++◌,
  Option, none, some, arith, length, length-append, mem, All, ltb, max,
}
use gaming_cafe_management.Realtime.{
  CafeEvent, StreamEntry, ChannelState, ring_size, delete, drop_oldest, push_entry, allocate_entry,
  remember_remote_entry,
}

abbrev pub ids : List StreamEntry → List ℕ
ids [] = []
ids (e ∷ es) = e.id ∷ ids es

abbrev pub Distinct : List ℕ → Type 0
Distinct [] = Unit
Distinct (k ∷ ks) = (mem k ks ≡ false) × Distinct ks

-- The set `seen` holds the ids of the entries, no id twice and none above `c`, and the ring is within
-- its size.
pub record IsRing (c : ℕ) (s : ChannelState) : Type 0 where
  pub seen_ids : s.seen ≡ ids s.entries
  pub distinct : Distinct (ids s.entries)
  pub below : All (λ e. e.id ≤ c) s.entries
  pub bounded : length s.entries ≤ ring_size

ids-append : (es : List StreamEntry) (e : StreamEntry) → ids (es ++ e ∷ []) ≡ ids es ++ e.id ∷ []
ids-append [] e = refl
ids-append (x ∷ es) e = ap (◌∷◌ x.id) (ids-append es e)

mem-append_last : (a k : ℕ) (ks : List ℕ) → mem a ks ≡ false → a ≢ k → mem a (ks ++ k ∷ []) ≡ false
mem-append_last a k [] h ne = ground arith
mem-append_last a k (x ∷ ks) h ne = ground (arith, mem-append_last a k ks)

Distinct-append_last :
    (k : ℕ) (ks : List ℕ) → Distinct ks → mem k ks ≡ false → Distinct (ks ++ k ∷ [])
Distinct-append_last k [] d h = (refl, tt)
Distinct-append_last k (x ∷ ks) d h =
    (mem-append_last x k ks d.0 (ground arith), Distinct-append_last k ks d.1 (ground arith))

All-append_last :
    (P : StreamEntry → Type 0) (es : List StreamEntry) (e : StreamEntry)
    → All P es
    → P e
    → All P (es ++ e ∷ [])
All-append_last P [] e h p = (p, tt)
All-append_last P (x ∷ es) e h p = (h.0, All-append_last P es e h.1 p)

All-below :
    (c d : ℕ) (es : List StreamEntry) → c ≤ d → All (λ e. e.id ≤ c) es → All (λ e. e.id ≤ d) es
All-below c d [] le h = tt
All-below c d (e ∷ es) le h = (omega arith, All-below c d es le h.1)

delete-absent : (a : ℕ) (ks : List ℕ) → mem a ks ≡ false → delete a ks ≡ ks
delete-absent a [] h = refl
delete-absent a (k ∷ ks) h = ground (arith, delete-absent a ks)

delete_head : (k : ℕ) (ks : List ℕ) → mem k ks ≡ false → delete k (k ∷ ks) ≡ ks
delete_head k ks h = ground (arith, delete-absent k ks h)

-- The same with one entry over the size, as it stands between the push and the drop.
record IsOver (c : ℕ) (s : ChannelState) : Type 0 where
  seen_ids : s.seen ≡ ids s.entries
  distinct : Distinct (ids s.entries)
  below : All (λ e. e.id ≤ c) s.entries
  bounded : length s.entries ≤ ring_size + 1

drop_oldest-IsRing :
    (c n : ℕ) (es : List StreamEntry) (ks : List ℕ)
    → IsOver c (record { entries = es; seen = ks; counter = n })
    → IsRing c (drop_oldest (record { entries = es; seen = ks; counter = n }) es)
unfolding drop_oldest
drop_oldest-IsRing c n [] ks h = record {
  seen_ids = h.seen_ids;
  distinct = tt;
  below = tt;
  bounded = omega arith;
}
drop_oldest-IsRing c n (e ∷ es) ks h = record {
  seen_ids = ap (delete e.id) h.seen_ids ∙ delete_head e.id (ids es) h.distinct.0;
  distinct = h.distinct.1;
  below = h.below.1;
  bounded = omega arith;
}

append-IsOver :
    (c : ℕ) (entry : StreamEntry) (s : ChannelState)
    → IsRing c s
    → mem entry.id s.seen ≡ false
    → entry.id ≤ c
    → IsOver c (record s { seen = s.seen ++ entry.id ∷ []; entries = s.entries ++ entry ∷ [] })
append-IsOver c entry s h fresh le = record {
  seen_ids = ap (λ ks. ks ++ entry.id ∷ []) h.seen_ids ∙ sym (ids-append s.entries entry);
  distinct =
      rw (ids-append s.entries entry)
        (Distinct-append_last entry.id (ids s.entries) h.distinct (rw h.seen_ids at fresh));
  below = All-append_last (λ e. e.id ≤ c) s.entries entry h.below le;
  bounded = omega (arith, length-append s.entries (entry ∷ []), h.bounded);
}

push_entry-IsRing :
    (c : ℕ) (entry : StreamEntry) (s : ChannelState)
    → IsRing c s
    → mem entry.id s.seen ≡ false
    → entry.id ≤ c
    → IsRing c (push_entry entry s)
unfolding push_entry
push_entry-IsRing c entry s h fresh le =
    let over = append-IsOver c entry s h fresh le in
    elim (Bool-cases (ltb ring_size (length (s.entries ++ entry ∷ [])))) [
      | inl full ↦ rw full (drop_oldest-IsRing c s.counter _ _ over)
      | inr fits ↦ rw fits (record {
        seen_ids = over.seen_ids;
        distinct = over.distinct;
        below = over.below;
        bounded = ground arith;
      })
    ]

IsRing-mono : (c d : ℕ) (s : ChannelState) → c ≤ d → IsRing c s → IsRing d s
IsRing-mono c d s le h = record {
  seen_ids = h.seen_ids;
  distinct = h.distinct;
  below = All-below c d s.entries le h.below;
  bounded = h.bounded;
}

-- The ring does not depend on the counter.
IsRing-counter : (c n : ℕ) (s : ChannelState) → IsRing c s → IsRing c (record s { counter = n })
IsRing-counter c n s h = record {
  seen_ids = h.seen_ids;
  distinct = h.distinct;
  below = h.below;
  bounded = h.bounded;
}

drop_oldest-counter :
    (s : ChannelState) (es : List StreamEntry) → (drop_oldest s es).counter ≡ s.counter
unfolding drop_oldest
drop_oldest-counter s [] = refl
drop_oldest-counter s (e ∷ es) = refl

pub push_entry-counter :
    (entry : StreamEntry) (s : ChannelState) → (push_entry entry s).counter ≡ s.counter
unfolding push_entry
push_entry-counter entry s = elim (Bool-cases (ltb ring_size (length (s.entries ++ entry ∷ [])))) [
  | inl full ↦ rw full (drop_oldest-counter _ (s.entries ++ entry ∷ []))
  | inr fits ↦ rw fits
]

mem-above :
    (c k : ℕ) (es : List StreamEntry) → All (λ e. e.id ≤ c) es → c < k → mem k (ids es) ≡ false
mem-above c k [] h lt = refl
mem-above c k (e ∷ es) h lt = ground (arith, mem-above c k es h.1)

-- A ring with its own counter: no entry is above the counter.
abbrev pub IsChannel : ChannelState → Type 0
IsChannel s = IsRing s.counter s

-- The next id of a channel is not in use.
pub next_id-fresh : (s : ChannelState) → IsChannel s → mem (s.counter + 1) s.seen ≡ false
next_id-fresh s h =
    rw h.seen_ids (mem-above s.counter (s.counter + 1) s.entries h.below (omega arith))

-- Both ways in which an entry enters the channel of a café, a publication of this process and the
-- arrival of one of another process, keep the ring: at most 200 entries, `seen` exactly their ids,
-- no id twice, and none above the counter.
pub allocate_entry-IsChannel :
    (s : ChannelState)
    → IsChannel s
    → ((evt : CafeEvent) → IsChannel (allocate_entry evt s).1)
      × ((parsed : Option StreamEntry) → IsChannel (remember_remote_entry parsed s).1)
unfolding allocate_entry remember_remote_entry
allocate_entry-IsChannel s h = (
  λ evt.
      let entry : StreamEntry = record { id = s.counter + 1; event = evt } in
      let t : ChannelState = record s { counter = s.counter + 1 } in
      rw (next_id-fresh s h) (
        subst (λ c. IsRing c (push_entry entry t)) (sym (push_entry-counter entry t))
          (push_entry-IsRing (s.counter + 1) entry t
            (IsRing-counter _ _ s (IsRing-mono s.counter (s.counter + 1) s (omega arith) h))
            (next_id-fresh s h) (omega arith))),
  elim [
    | none ↦ h
    | some parsed ↦ elim (Bool-cases (mem parsed.id s.seen)) [
      | inl old ↦ rw old h
      | inr new ↦
          let c : ℕ = max (push_entry parsed s).counter parsed.id in
          rw new (
            IsRing-counter c c (push_entry parsed s) (
              push_entry-IsRing c parsed s
                (IsRing-mono s.counter c s (omega (arith, push_entry-counter parsed s)) h) new
                (omega arith)))
    ]
  ],
)
