-- ===== src/Sync/Spares.antt =====
-- Changes of the table of sessions that leave a session that is over as it is.
use gaming_cafe_management.Prelude.{
  ℕ, ◌≡◌, ◌≢◌, ◌∙◌, inl, inr, ◌⊎◌, true, false, List, [], ◌∷◌, ◌++◌, some, All, arith, ◌==◌, find?,
  Bool-cases, Option-cases,
}
use gaming_cafe_management.World.Tables.{SessionRow}
use gaming_cafe_management.Sessions.{session_by_id, set_session}
use gaming_cafe_management.Sessions.Handlers.{is_terminal}
use gaming_cafe_management.Sessions.Lookup.{by_id-append, by_id-set_ne}
use gaming_cafe_management.Sync.Apply.{active_on, load_active_session}

-- Every row with the key is terminal.
abbrev pub AllOver : ℕ → List SessionRow → Type 0
AllOver id rows = All (λ r. r.id == id ≡ true → is_terminal r.status ≡ true) rows

-- The session `s` is found under the key, and every row with the key is terminal.
abbrev pub StaysOver : ℕ → SessionRow → List SessionRow → Type 0
StaysOver id s rows = (session_by_id id rows ≡ some s) × AllOver id rows

-- A change of the table that leaves the rows with the key alone.
abbrev pub Spares : ℕ → List SessionRow → List SessionRow → Type 0
Spares id before after =
    (after ≡ before)
    ⊎ ((new : SessionRow) × (new.id == id ≡ false) × (after ≡ before ++ new ∷ []))
    ⊎ ((j : ℕ) × (f : SessionRow → SessionRow) × (j == id ≡ false)
        × ((r : SessionRow) → (f r).id ≡ r.id)
        × (after ≡ set_session j f before))

AllOver-append :
    (id : ℕ) (rows : List SessionRow) (new : SessionRow)
    → new.id == id ≡ false
    → AllOver id rows
    → AllOver id (rows ++ new ∷ [])
AllOver-append id [] new other h = ((λ same. absurd (ground arith)), tt)
AllOver-append id (r ∷ rs) new other (h, hs) = (h, AllOver-append id rs new other hs)

AllOver-set :
    (id j : ℕ) (f : SessionRow → SessionRow) (rows : List SessionRow)
    → j == id ≡ false
    → ((r : SessionRow) → (f r).id ≡ r.id)
    → AllOver id rows
    → AllOver id (set_session j f rows)
AllOver-set id j f [] other keep h = tt
AllOver-set id j f (r ∷ rs) other keep (h, hs) =
    let rest = AllOver-set id j f rs other keep hs in
    elim (Bool-cases (r.id == j)) [
      | inl hit ↦ let kept = keep r in rw hit ((λ same. absurd (ground arith)), rest)
      | inr miss ↦ rw miss (h, rest)
    ]

pub spared-StaysOver :
    (id : ℕ) (s : SessionRow) (before after : List SessionRow)
    → Spares id before after
    → StaysOver id s before
    → StaysOver id s after
spared-StaysOver id s before after (inl same) h = rw same h
spared-StaysOver id s before after (inr (inl (new, other, added))) (at, over) =
    rw added (by_id-append id before _ s at, AllOver-append id before new other over)
spared-StaysOver id s before after (inr (inr (j, f, other, keep, set))) (at, over) =
    let ne : id ≢ j = λ e. ground arith in
    rw set (by_id-set_ne id j f before keep ne ∙ at, AllOver-set id j f before other keep over)

active-other :
    (id pc : ℕ) (r : SessionRow)
    → (r.id == id ≡ true → is_terminal r.status ≡ true)
    → active_on pc r ≡ true
    → r.id == id ≡ false
active-other id pc r h active = elim (Bool-cases (r.id == id)) [
  | inl same ↦ let over = h same in absurd (ground arith)
  | inr other ↦ other
]

-- The active session of a machine has another key.
pub load-other :
    (id pc : ℕ) (rows : List SessionRow) (a : SessionRow)
    → AllOver id rows
    → load_active_session pc rows ≡ some a
    → a.id == id ≡ false
load-other id pc [] a h e = ground arith
load-other id pc (r ∷ rs) a (h, hs) e =
    let own = active-other id pc r h in
    elim (Option-cases (load_active_session pc rs)) [
      | inl empty ↦ ground arith
      | inr (t, found) ↦ let rest = load-other id pc rs t hs found in ground arith
    ]

pub find-other :
    (id pc : ℕ) (rows : List SessionRow) (a : SessionRow)
    → AllOver id rows
    → find? (active_on pc) rows ≡ some a
    → a.id == id ≡ false
find-other id pc [] a h e = ground arith
find-other id pc (r ∷ rs) a (h, hs) e =
    let own = active-other id pc r h in let rest = find-other id pc rs a hs in ground arith
