-- ===== src/Tests/Live.antt =====
-- Events, commands and refused attempts.
use gaming_cafe_management.Prelude.{
  ℕ, ◌≡◌, refl, Bool, true, false, List, [], ◌∷◌, Option, none, some, arith, filter,
}
use gaming_cafe_management.Shared.{CommandType, CommandStatus, PcStatus}
use gaming_cafe_management.World.Tables.{CommandRow}
use gaming_cafe_management.World.Action.{ok}
use gaming_cafe_management.Realtime.{
  CafeEvent, StreamEntry, SseContext, pc_status, pc_status_data, empty_channel, allocate_entry,
  remember_remote_entry, get_replay, matches_context,
}
use gaming_cafe_management.Realtime.Ring.{IsChannel, allocate_entry-IsChannel}
use gaming_cafe_management.Realtime.Replay.{publish_all, numbered, replay-publish_all}
use gaming_cafe_management.RateLimit.{Buckets, check_rate_limit, fail_rate_limit, reset_rate_limit}
use gaming_cafe_management.RateLimit.Lockout.{fail_all, lockout_over}
use gaming_cafe_management.Commands.{applied, failed, handle_command_ack, acked_command}
use gaming_cafe_management.Commands.Confirmed.{
  IssueRequest, issue_all, asked, handle_issue_command-admitted,
}
use gaming_cafe_management.Commands.Ack.{handle_command_ack-twice}
use gaming_cafe_management.Tests.Fixtures.{user, device, with_commands}

abbrev evt : CafeEvent
evt = record {
  event = pc_status;
  content = pc_status_data 3 PcStatus.online 60000000;
  pc_id = some 3;
}

empty-IsChannel : IsChannel empty_channel
empty-IsChannel = record { seen_ids = refl; distinct = tt; below = tt; bounded = omega arith }

allocate_entry-IsChannel_example :
    ((e : CafeEvent) → IsChannel (allocate_entry e empty_channel).1)
    × ((parsed : Option StreamEntry) → IsChannel (remember_remote_entry parsed empty_channel).1)
allocate_entry-IsChannel_example = allocate_entry-IsChannel empty_channel empty-IsChannel

replay-publish_all_example :
    get_replay (some (publish_all (evt ∷ evt ∷ []) empty_channel)) (some 0) (SseContext.pc 3)
    ≡ filter (λ e. matches_context e.event (SseContext.pc 3)) (numbered 0 (evt ∷ evt ∷ []))
replay-publish_all_example =
    replay-publish_all empty_channel (evt ∷ evt ∷ []) (SseContext.pc 3) empty-IsChannel
      (omega arith)

abbrev no_buckets : Buckets
no_buckets key = none

abbrev four : List ℕ
four = 1000 ∷ 2000 ∷ 3000 ∷ 4000 ∷ []

lockout_over_example :
    (check_rate_limit 905000 1
      (fail_rate_limit 5000 1 (fail_all 1 four (reset_rate_limit 1 no_buckets)))).0
    ≡ true
lockout_over_example = lockout_over 1 four 5000 905000 no_buckets (omega arith)

abbrev restart : CommandRow
restart = record {
  id = 8;
  cafe_id = 7;
  pc_id = 3;
  type = CommandType.restart;
  requires_confirm = true;
  confirmed_by = some 11;
  status = CommandStatus.pending;
  issued_by = 11;
  issued_at = 60000000;
  delivered_at = none;
  acked_at = none;
  expires_at = 60060000;
}

handle_command_ack-twice_example :
    let r = handle_command_ack 60010000 device 8 applied (with_commands (restart ∷ [])) in
    handle_command_ack 60020000 device 8 failed r.1
    ≡ (ok (acked_command 60010000 applied restart restart), r.1)
unfolding handle_command_ack
handle_command_ack-twice_example =
    handle_command_ack-twice 60010000 60020000 device 8 applied failed
      (acked_command 60010000 applied restart restart) (with_commands (restart ∷ [])) refl

abbrev issue_request : CommandType → (confirm : Bool) → (pc_id : ℕ) → IssueRequest
issue_request type confirm pc_id = record {
  now = 60000000;
  new_id = 9;
  user = user;
  pc_id = pc_id;
  input = record { type = type; confirm = confirm };
}

abbrev issue_requests : List IssueRequest
issue_requests =
    issue_request CommandType.shutdown false 3
    ∷ issue_request CommandType.shutdown true 3
    ∷ issue_request CommandType.restart true 5
    ∷ issue_request CommandType.unlock false 3
    ∷ []

handle_issue_command-admitted_example :
    (issue_all issue_requests (with_commands (restart ∷ []))).pc_commands
    ≡ restart
      ∷ asked (issue_request CommandType.shutdown true 3)
      ∷ asked (issue_request CommandType.unlock false 3)
      ∷ []
handle_issue_command-admitted_example =
    handle_issue_command-admitted issue_requests (with_commands (restart ∷ []))
