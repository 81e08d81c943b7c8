-- ===== src/Pcs/Rows.antt =====
-- Writes to the table of machines, with the unique index `pcs_cafe_name_uq` of
-- apps/server/src/db/schema.ts: the server answers its violation as an internal error.
use gaming_cafe_management.Prelude.{
  ℕ, Bool, not, ◌&&◌, [], ◌∷◌, ◌++◌, List, ◌==◌, any, update_where,
}
use gaming_cafe_management.Prelude.Texts.{Text, text_eq}
use gaming_cafe_management.Shared.{problem, internal}
use gaming_cafe_management.World.Tables.{PcRow}
use gaming_cafe_management.World.Action.{gets, modify, check, ◌>>=◌, ◌>>◌}
use gaming_cafe_management.World.{World, M}

-- Whether a name in a café is another machine's.
abbrev pub name_clashes : (id cafe_id : ℕ) → Text → List PcRow → Bool
name_clashes id cafe_id name pcs =
    any (λ p. not (p.id == id) && (p.cafe_id == cafe_id && text_eq p.name name)) pcs

unfoldable pub insert_pc : PcRow → M (Unit {0})
insert_pc row = do
  rows ← gets (λ w. w.pcs)
  check (not (name_clashes row.id row.cafe_id row.name rows)) (problem 500 internal)
  modify (λ w. record w { db = record (w.db) { pcs = w.pcs ++ row ∷ [] } })

unfoldable pub update_pcs : (PcRow → Bool) → (PcRow → PcRow) → World → World
update_pcs p set w = record w { db = record (w.db) { pcs = update_where p set w.pcs } }
