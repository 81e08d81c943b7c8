-- ===== src/Commands/Confirmed.antt =====
-- The commands that requests of staff put into the table: each is for a machine of the user's café,
-- and a dangerous one was confirmed.
use gaming_cafe_management.Prelude.{
  ℕ, ◌+◌, ◌≡◌, refl, inl, inr, Bool, true, false, not, ◌&&◌, ◌||◌, List, [], ◌∷◌, ◌++◌, arith,
  Bool-cases, some, none, Option-cases, find?, any, filter, map, ◌==◌, if◌then◌else◌, sym, ◌∙◌, ap,
}
use gaming_cafe_management.Auth.{UserClaims}
use gaming_cafe_management.Shared.{CommandType, CommandStatus, is_dangerous}
use gaming_cafe_management.World.Tables.{CommandRow, PcRow}
use gaming_cafe_management.World.{World}
use gaming_cafe_management.Commands.{IssueCommandInput, handle_issue_command, issued_command}

-- A request to issue a command, with its time and the key that its row gets.
pub record IssueRequest : Type 0 where
  pub now : ℕ
  pub new_id : ℕ
  pub user : UserClaims
  pub pc_id : ℕ
  pub input : IssueCommandInput

abbrev pub issue : IssueRequest → World → World
issue q w = (handle_issue_command q.now q.new_id q.user q.pc_id q.input w).1

abbrev pub issue_all : List IssueRequest → World → World
issue_all [] w = w
issue_all (q ∷ qs) w = issue_all qs (issue q w)

-- The commands that end somebody's stay or turn the machine off.
abbrev pub needs_confirmation : CommandType → Bool
needs_confirmation CommandType.end_session = true
needs_confirmation CommandType.restart = true
needs_confirmation CommandType.shutdown = true
needs_confirmation _ = false

-- A request for a machine of the user's café that is confirmed where its command needs it.
abbrev pub is_admitted : List PcRow → IssueRequest → Bool
is_admitted pcs q =
    any (λ p. p.id == q.pc_id && p.cafe_id == q.user.cafe_id) pcs
    && (not (needs_confirmation q.input.type) || q.input.confirm)

-- The command that a request asks for: pending for a minute, and confirmed by the user who issued it
-- if it needs that.
abbrev pub asked : IssueRequest → CommandRow
asked q = record {
  id = q.new_id;
  cafe_id = q.user.cafe_id;
  pc_id = q.pc_id;
  type = q.input.type;
  requires_confirm = needs_confirmation q.input.type;
  confirmed_by = if needs_confirmation q.input.type then some q.user.sub else none;
  status = CommandStatus.pending;
  issued_by = q.user.sub;
  issued_at = q.now;
  delivered_at = none;
  acked_at = none;
  expires_at = q.now + 60000;
}

abbrev filter_asked : List PcRow → List IssueRequest → List CommandRow
filter_asked pcs qs = map asked (filter (is_admitted pcs) qs)

needs_confirmation_lem : (t : CommandType) → is_dangerous t ≡ needs_confirmation t
unfolding is_dangerous
needs_confirmation_lem t = ground arith

find-any :
    (id cafe_id : ℕ) (pcs : List PcRow)
    → find? (λ p. p.id == id && p.cafe_id == cafe_id) pcs ≡ none
    → any (λ p. p.id == id && p.cafe_id == cafe_id) pcs ≡ false
find-any id cafe_id [] h = refl
find-any id cafe_id (p ∷ ps) h = let rest = find-any id cafe_id ps in ground arith

find-id :
    (id cafe_id : ℕ) (pcs : List PcRow) (pc : PcRow)
    → find? (λ p. p.id == id && p.cafe_id == cafe_id) pcs ≡ some pc
    → (pc.id ≡ id) × (any (λ p. p.id == id && p.cafe_id == cafe_id) pcs ≡ true)
find-id id cafe_id [] pc h = ground arith
find-id id cafe_id (p ∷ ps) pc h = let rest = find-id id cafe_id ps pc in ground arith

-- What a request did to the table of commands; it leaves the machines alone.
abbrev Adds : (added : List CommandRow) → (before after : World) → Type 0
Adds added before after =
    (after.pcs ≡ before.pcs) × (after.pc_commands ≡ before.pc_commands ++ added)

append_nil : (rows : List CommandRow) → rows ++ [] ≡ rows
append_nil [] = refl
append_nil (r ∷ rows) = rw (append_nil rows) refl

issue-absent :
    (now new_id : ℕ) (user : UserClaims) (pc_id : ℕ) (input : IssueCommandInput) (w : World)
    → find? (λ p. p.id == pc_id && p.cafe_id == user.cafe_id) w.pcs ≡ none
    → Adds [] w (handle_issue_command now new_id user pc_id input w).1
unfolding handle_issue_command
issue-absent now new_id user pc_id input w absent = rw absent (refl, sym (append_nil w.pc_commands))

issue-unconfirmed :
    (now new_id : ℕ) (user : UserClaims) (pc_id : ℕ) (input : IssueCommandInput) (pc : PcRow)
    (w : World)
    → find? (λ p. p.id == pc_id && p.cafe_id == user.cafe_id) w.pcs ≡ some pc
    → not (is_dangerous input.type && not input.confirm) ≡ false
    → Adds [] w (handle_issue_command now new_id user pc_id input w).1
unfolding handle_issue_command
issue-unconfirmed now new_id user pc_id input pc w found stop =
    rw (found, stop) (refl, sym (append_nil w.pc_commands))

issue-confirmed :
    (q : IssueRequest) (pc : PcRow) (w : World)
    → find? (λ p. p.id == q.pc_id && p.cafe_id == q.user.cafe_id) w.pcs ≡ some pc
    → pc.id ≡ q.pc_id
    → not (is_dangerous q.input.type && not q.input.confirm) ≡ true
    → Adds (asked q ∷ []) w (handle_issue_command q.now q.new_id q.user q.pc_id q.input w).1
unfolding handle_issue_command issued_command
issue-confirmed q pc w found same go =
    rw (found, go, needs_confirmation_lem q.input.type, same) (refl, refl)

guard_lem : (d c : Bool) → not (d && not c) ≡ (not d || c)
guard_lem true true = refl
guard_lem true false = refl
guard_lem false c = refl

issue-Adds : (q : IssueRequest) (w : World) → Adds (filter_asked w.pcs (q ∷ [])) w (issue q w)
issue-Adds q w =
    let guard =
      guard_lem (is_dangerous q.input.type) q.input.confirm
      ∙ ap (λ d. not d || q.input.confirm) (needs_confirmation_lem q.input.type) in
    elim (Option-cases (find? (λ p. p.id == q.pc_id && p.cafe_id == q.user.cafe_id) w.pcs)) [
      | inl absent ↦
          rw (find-any q.pc_id q.user.cafe_id w.pcs absent)
            (issue-absent q.now q.new_id q.user q.pc_id q.input w absent)
      | inr (pc, found) ↦
          let (same, there) = find-id q.pc_id q.user.cafe_id w.pcs pc found in
          elim (Bool-cases (not (is_dangerous q.input.type && not q.input.confirm))) [
            | inl go ↦ rw (there, sym guard ∙ go) (issue-confirmed q pc w found same go)
            | inr stop ↦
                rw (there, sym guard ∙ stop)
                  (issue-unconfirmed q.now q.new_id q.user q.pc_id q.input pc w found stop)
          ]
    ]

append_assoc : (a b c : List CommandRow) → (a ++ b) ++ c ≡ a ++ (b ++ c)
append_assoc [] b c = refl
append_assoc (x ∷ a) b c = rw (append_assoc a b c) refl

filter_asked-cons :
    (pcs : List PcRow) (q : IssueRequest) (qs : List IssueRequest)
    → filter_asked pcs (q ∷ qs) ≡ filter_asked pcs (q ∷ []) ++ filter_asked pcs qs
filter_asked-cons pcs q qs = elim (Bool-cases (is_admitted pcs q)) [
  | inl hit ↦ rw hit refl
  | inr miss ↦ rw miss refl
]

-- Requests of staff to issue commands, in any order and answered or refused, add to the table exactly
-- the commands that are asked of a machine of the user's café and that are confirmed if they end a
-- session, restart the machine or shut it down, in the order of the requests; each is pending for a
-- minute and, where it had to be confirmed, names the user who issued it as the one who confirmed.
pub handle_issue_command-admitted :
    (qs : List IssueRequest) (w : World)
    → (issue_all qs w).pc_commands ≡ w.pc_commands ++ map asked (filter (is_admitted w.pcs) qs)
handle_issue_command-admitted [] w = sym (append_nil w.pc_commands)
handle_issue_command-admitted (q ∷ qs) w =
    let (pcs, commands) = issue-Adds q w in
    handle_issue_command-admitted qs (issue q w)
    ∙ ap (λ ps. (issue q w).pc_commands ++ filter_asked ps qs) pcs
    ∙ ap (λ cs. cs ++ filter_asked w.pcs qs) commands
    ∙ append_assoc w.pc_commands (filter_asked w.pcs (q ∷ [])) (filter_asked w.pcs qs)
    ∙ ap (λ cs. w.pc_commands ++ cs) (sym (filter_asked-cons w.pcs q qs))
