-- ===== src/Sync/Resolution.antt =====
-- Conflicts that a user resolves.
use gaming_cafe_management.Prelude.{
  ℕ, ◌≡◌, ◌≢◌, refl, sym, inl, inr, false, ◌&&◌, List, [], ◌∷◌, Option, some, none, arith,
  Option-cases, find?, ◌==◌, update_where,
}
use mathlib.Core.Path.{subst}
use gaming_cafe_management.Auth.{UserClaims}
use gaming_cafe_management.Shared.{problem, not_conflicted, OfflineEventState}
use gaming_cafe_management.World.Tables.{OfflineEventRow}
use gaming_cafe_management.World.{World}
use gaming_cafe_management.World.Action.{ok, err}
use gaming_cafe_management.Sync.Handlers.{
  Resolution, accept_server, accept_offline, manual, is_conflicted, handle_resolve_sync_conflict,
  set_state, accept_row,
}

abbrev event_at : (id cafe_id : ℕ) → List OfflineEventRow → Option OfflineEventRow
event_at id cafe_id rows = find? (λ r. r.id == id && r.cafe_id == cafe_id) rows

-- An update that keeps keys and cafés and settles the row.
abbrev Settles : (OfflineEventRow → OfflineEventRow) → Type 0
Settles f =
    (r : OfflineEventRow)
    → ((f r).id ≡ r.id) × ((f r).cafe_id ≡ r.cafe_id) × (is_conflicted (f r).state ≡ false)

found-update :
    (id cafe_id : ℕ) (f : OfflineEventRow → OfflineEventRow) (rows : List OfflineEventRow)
    (e : OfflineEventRow)
    → Settles f
    → event_at id cafe_id rows ≡ some e
    → event_at id cafe_id (update_where (λ r. r.id == id) f rows) ≡ some (f e)
found-update id cafe_id f [] e settles h = cc
found-update id cafe_id f (r ∷ rs) e settles h =
    ground (arith, settles r, found-update id cafe_id f rs e)

-- What each resolution makes of the row.
abbrev settled : Resolution → OfflineEventRow → OfflineEventRow
settled accept_server = set_state OfflineEventState.duplicate
settled manual = set_state OfflineEventState.accepted
settled accept_offline = accept_row

settled-Settles : (resolution : Resolution) → Settles (settled resolution)
settled-Settles accept_server r = (refl, refl, refl)
settled-Settles manual r = (refl, refl, refl)
settled-Settles accept_offline r = (refl, refl, refl)

module _ (user : UserClaims) (id : ℕ) (w : World) where
  absent_lem :
      (resolution : Resolution)
      → event_at id user.cafe_id w.offline_events ≡ none
      → (handle_resolve_sync_conflict user id resolution w).0 ≢ ok resolution
  unfolding handle_resolve_sync_conflict
  absent_lem resolution h done = ground arith

  closed_lem :
      (resolution : Resolution) (e : OfflineEventRow)
      → event_at id user.cafe_id w.offline_events ≡ some e
      → is_conflicted e.state ≡ false
      → handle_resolve_sync_conflict user id resolution w ≡ (err (problem 409 not_conflicted), w)
  unfolding handle_resolve_sync_conflict
  closed_lem resolution e found closed = rw (found, closed) refl

  resolved_lem :
      (resolution : Resolution) (e : OfflineEventRow)
      → event_at id user.cafe_id w.offline_events ≡ some e
      → (handle_resolve_sync_conflict user id resolution w).0 ≡ ok resolution
      → (handle_resolve_sync_conflict user id resolution w).1.offline_events
        ≡ update_where (λ r. r.id == id) (settled resolution) w.offline_events
  unfolding handle_resolve_sync_conflict
  resolved_lem accept_server e found done = ground arith
  resolved_lem manual e found done = ground arith
  resolved_lem accept_offline e found done = ground arith

-- A conflict that was resolved is not resolved again: a further request of the same or another user of
-- the café, with any resolution, is refused as not conflicted and changes nothing.
pub handle_resolve_sync_conflict-once :
    (user other : UserClaims) (id : ℕ) (first second : Resolution) (w : World)
    → other.cafe_id ≡ user.cafe_id
    → (handle_resolve_sync_conflict user id first w).0 ≡ ok first
    → let next = (handle_resolve_sync_conflict user id first w).1 in
      handle_resolve_sync_conflict other id second next ≡ (err (problem 409 not_conflicted), next)
handle_resolve_sync_conflict-once user other id first second w same done =
    elim (Option-cases (event_at id user.cafe_id w.offline_events)) [
      | inl absent ↦ absurd (absent_lem user id w first absent done)
      | inr (e, found) ↦
          let next = (handle_resolve_sync_conflict user id first w).1 in
          let rows = resolved_lem user id w first e found done in
          let settles = settled-Settles first in
          let again : event_at id user.cafe_id next.offline_events ≡ some (settled first e) =
            rw rows
              (found-update id user.cafe_id (settled first) w.offline_events e settles found) in
          let seen : event_at id other.cafe_id next.offline_events ≡ some (settled first e) =
            subst (λ c. event_at id c next.offline_events ≡ some (settled first e)) (sym same)
              again in
          closed_lem other id next second (settled first e) seen (settles e).2
    ]
