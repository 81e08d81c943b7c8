-- ===== src/Realtime/Replay.antt =====
-- What a client that connects again gets, in apps/server/src/modules/realtime/service.ts.
use gaming_cafe_management.Prelude.{
  ℕ, ◌+◌, ◌≤◌, ◌<◌, ◌≡◌, refl, sym, ap, ◌∙◌, inl, inr, Bool-cases, ltb→lt, Bool, ◌&&◌, List, [],
  ◌∷◌, ◌++◌, some, arith, length, length-append, All, ltb, filter,
}
use mathlib.Core.List.{append-nil, append_assoc}
use gaming_cafe_management.Realtime.{
  CafeEvent, StreamEntry, ChannelState, SseContext, ring_size, drop_oldest, push_entry,
  allocate_entry, matches_context, get_replay, is_newer,
}
use gaming_cafe_management.Realtime.Ring.{
  IsChannel, next_id-fresh, allocate_entry-IsChannel, push_entry-counter,
}

-- Publications in a row.
pub publish_all : List CafeEvent → ChannelState → ChannelState
publish_all [] s = s
publish_all (evt ∷ evts) s = publish_all evts (allocate_entry evt s).1

-- The entries that they get, the ids counting on from `c`.
abbrev pub numbered : ℕ → List CafeEvent → List StreamEntry
numbered c [] = []
numbered c (evt ∷ evts) = record { id = c + 1; event = evt } ∷ numbered (c + 1) evts

-- The ring is a list of old entries, none of them above `c`, and then the new ones.
record Splits (c : ℕ) (news : List StreamEntry) (s : ChannelState) : Type 0 where
  olds : List StreamEntry
  split : s.entries ≡ olds ++ news
  old : All (λ e. e.id ≤ c) olds

drop-Splits :
    (c : ℕ) (news olds es : List StreamEntry) (t : ChannelState)
    → es ≡ olds ++ news
    → length news ≤ ring_size
    → ring_size < length es
    → All (λ e. e.id ≤ c) olds
    → Splits c news (drop_oldest t es)
unfolding drop_oldest
drop-Splits c news olds [] t e room full old = absurd (omega arith)
drop-Splits c news [] (x ∷ es) t e room full old = let same = ap length e in absurd (omega arith)
drop-Splits c news (o ∷ olds) (x ∷ es) t e room full old = record {
  olds = olds;
  split = cc;
  old = old.1;
}

push-Splits :
    (c : ℕ) (news : List StreamEntry) (entry : StreamEntry) (s : ChannelState)
    → length news < ring_size
    → Splits c news s
    → Splits c (news ++ entry ∷ []) (push_entry entry s)
unfolding push_entry
push-Splits c news entry s room sp =
    let e : s.entries ++ entry ∷ [] ≡ sp.olds ++ (news ++ entry ∷ []) =
      ap (λ es. es ++ entry ∷ []) sp.split ∙ append_assoc sp.olds news (entry ∷ []) in
    elim (Bool-cases (ltb ring_size (length (s.entries ++ entry ∷ [])))) [
      | inl full ↦ rw full (
          drop-Splits c (news ++ entry ∷ []) sp.olds (s.entries ++ entry ∷ []) _ e
            (omega (arith, length-append news (entry ∷ []))) (ltb→lt _ _ full) sp.old)
      | inr fits ↦ rw fits (record { olds = sp.olds; split = e; old = sp.old })
    ]

-- A publication adds one entry at the end.
allocate-Splits :
    (c : ℕ) (news : List StreamEntry) (evt : CafeEvent) (s : ChannelState)
    → IsChannel s
    → length news < ring_size
    → Splits c news s
    → Splits c (news ++ record { id = s.counter + 1; event = evt } ∷ []) (allocate_entry evt s).1
unfolding allocate_entry
allocate-Splits c news evt s h room sp = rw (next_id-fresh s h) (
    push-Splits c news _ (record s { counter = s.counter + 1 }) room
      (record { olds = sp.olds; split = sp.split; old = sp.old }))

allocate-counter :
    (evt : CafeEvent) (s : ChannelState)
    → IsChannel s
    → (allocate_entry evt s).1.counter ≡ s.counter + 1
unfolding allocate_entry
allocate-counter evt s h = rw (next_id-fresh s h) (push_entry-counter _ _)

publish_all-Splits :
    (c : ℕ) (evts : List CafeEvent) (news : List StreamEntry) (s : ChannelState)
    → IsChannel s
    → length news + length evts ≤ ring_size
    → Splits c news s
    → Splits c (news ++ numbered s.counter evts) (publish_all evts s)
unfolding publish_all
publish_all-Splits c [] news s h room sp = record {
  olds = sp.olds;
  split = sp.split ∙ ap (◌++◌ sp.olds) (sym (append-nil news));
  old = sp.old;
}
publish_all-Splits c (evt ∷ evts) news s h room sp =
    let next = (allocate_entry evt s).1 in
    let sp' = allocate-Splits c news evt s h (omega arith) sp in
    let rest =
      publish_all-Splits c evts _ next ((allocate_entry-IsChannel s h).0 evt)
        (omega (arith, length-append news (record { id = s.counter + 1; event = evt } ∷ []))) sp' in
    record {
      olds = rest.olds;
      split =
          rest.split
          ∙ ap (λ es. rest.olds ++ es)
              (append_assoc news _ (numbered next.counter evts)
                ∙ ap
                    (λ (n : ℕ).
                      news ++ record { id = s.counter + 1; event = evt } ∷ numbered n evts)
                    (allocate-counter evt s h));
      old = rest.old;
    }

-- A client at id `c` has seen the old entries and none of the new ones.
replay-old :
    (c : ℕ) (ctx : SseContext) (es : List StreamEntry)
    → All (λ e. e.id ≤ c) es
    → filter (λ e. is_newer (some c) e.id && matches_context e.event ctx) es ≡ []
replay-old c ctx [] h = refl
replay-old c ctx (e ∷ es) h = ground (arith, replay-old c ctx es h.1)

replay-numbered :
    (c n : ℕ) (ctx : SseContext) (evts : List CafeEvent)
    → c ≤ n
    → filter (λ e. is_newer (some c) e.id && matches_context e.event ctx) (numbered n evts)
      ≡ filter (λ e. matches_context e.event ctx) (numbered n evts)
replay-numbered c n ctx [] le = refl
replay-numbered c n ctx (evt ∷ evts) le =
    ground (arith, replay-numbered c (n + 1) ctx evts (omega arith))

filter-append {ℓ} :
    {A : Type ℓ} (p : A → Bool) (xs ys : List A) → filter p (xs ++ ys) ≡ filter p xs ++ filter p ys
filter-append p [] ys = refl
filter-append p (x ∷ xs) ys = ground (arith, filter-append p xs ys)

-- A client that had seen every entry of a channel and connects again after at most 200 publications
-- is sent all of those that its kind of stream shows, and nothing else, in their order and under the
-- ids that count on from the last one that it saw.
pub replay-publish_all :
    (s : ChannelState) (evts : List CafeEvent) (ctx : SseContext)
    → IsChannel s
    → length evts ≤ ring_size
    → get_replay (some (publish_all evts s)) (some s.counter) ctx
      ≡ filter (λ e. matches_context e.event ctx) (numbered s.counter evts)
unfolding get_replay
replay-publish_all s evts ctx h room =
    let all_old : Splits s.counter [] s = record {
      olds = s.entries;
      split = sym (append-nil s.entries);
      old = h.below;
    } in
    let sp = publish_all-Splits s.counter evts [] s h (omega arith) all_old in
    let p : StreamEntry → Bool =
      λ e. is_newer (some s.counter) e.id && matches_context e.event ctx in
    ap (filter p) sp.split
    ∙ filter-append p sp.olds (numbered s.counter evts)
    ∙ ap (λ es. es ++ filter p (numbered s.counter evts)) (replay-old s.counter ctx sp.olds sp.old)
    ∙ replay-numbered s.counter s.counter ctx evts (omega arith)
