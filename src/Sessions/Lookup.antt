-- ===== src/Sessions/Lookup.antt =====
-- Looking up sessions by id, before and after an update.
use gaming_cafe_management.Prelude.{ℕ, ◌≡◌, ◌≢◌, refl, List, [], ◌∷◌, ◌++◌, some, arith}
use gaming_cafe_management.World.Tables.{SessionRow}
use gaming_cafe_management.Sessions.{session_by_id, set_session}

pub by_id-append :
    (id : ℕ) (xs ys : List SessionRow) (s : SessionRow)
    → session_by_id id xs ≡ some s
    → session_by_id id (xs ++ ys) ≡ some s
by_id-append id [] ys s h = cc
by_id-append id (x ∷ xs) ys s h = ground (arith, by_id-append id xs ys s)

-- An update that keeps ids leaves the look-up of another id alone.
pub by_id-set_ne :
    (id j : ℕ) (f : SessionRow → SessionRow) (xs : List SessionRow)
    → ((r : SessionRow) → (f r).id ≡ r.id)
    → id ≢ j
    → session_by_id id (set_session j f xs) ≡ session_by_id id xs
by_id-set_ne id j f [] keep ne = refl
by_id-set_ne id j f (x ∷ xs) keep ne = ground (arith, keep x, by_id-set_ne id j f xs keep ne)

-- The updated row is found under its id.
pub by_id-set_self :
    (id : ℕ) (f : SessionRow → SessionRow) (xs : List SessionRow) (s : SessionRow)
    → ((r : SessionRow) → (f r).id ≡ r.id)
    → session_by_id id xs ≡ some s
    → session_by_id id (set_session id f xs) ≡ some (f s)
by_id-set_self id f [] s keep h = cc
by_id-set_self id f (x ∷ xs) s keep h = ground (arith, keep x, by_id-set_self id f xs s keep)
