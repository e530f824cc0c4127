-- ===== src/Retention/Tests.antt =====
-- Retention on concrete inputs.
use opencord_server.Base.{
  ℕ, ◌-◌, true, false, List, [], ◌∷◌, Option, none, some, Text, text, trim, is_whitespace, Uuid,
  nat_eq, ok, ◌≡◌, refl, length,
}
use opencord_server.Base.Int.{pos, pos_part}
use opencord_server.Base.Time.{Chrono}
use opencord_server.Base.Map.{get}
use opencord_server.Base.Keyed.{unless}
use opencord_server.Message.{Message}
use opencord_server.Message.Commands as OnMessages
use opencord_server.Attachment.{Attachment}
use opencord_server.Retention.{RetentionPolicy, RetentionRunSummary}
use opencord_server.Retention.Memory.{policies}
use opencord_server.Retention.Effect.{Contents, unlocked}
use opencord_server.Retention.Left.{IsReady, is_due_message, is_due_file}
use opencord_server.Retention.Runs.{run_once, run_once_at_exact, run_once_at-dry_run, SameButRuns}
use opencord_server.Retention.Ready.{
  Command, upsert, message, run_all, run_all-IsReady, empty_contents,
}

-- A clock of days, each printed as one character.
abbrev first_char : Text → Option ℕ
first_char [] = none
first_char (c ∷ _) = some c

abbrev days : Chrono
days = record {
  DateTime = ℕ;
  parse_from_rfc3339 = first_char;
  to_rfc3339 = λ day. day ∷ [];
  is_after = λ a b. false;
  minus_days = λ day n. day - pos_part n;
}

abbrev said : Uuid → ℕ → Command days
said id day = message (
    OnMessages.create id day (record {
      organization_id = 7;
      space_id = some 5;
      channel_id = 3;
      author_user_id = 9;
      content = text "hello";
      allow_empty_content = false;
      embeds = [];
      components = [];
      webhook_username = none;
      webhook_avatar_url = none;
      mention_user_ids = [];
      mention_role_ids = [];
      mention_everyone = false;
      reply_to_message_id = none;
    }))

abbrev month : RetentionPolicy
month = record {
  organization_id = 7;
  messages_retain_days = some (pos 30);
  files_retain_days = none;
  audit_logs_retain_days = none;
  deleted_message_purge_days = none;
}

abbrev history : List (Command days)
history = upsert month ∷ said 1 50 ∷ said 2 90 ∷ []

abbrev now : Contents
now = run_all days history empty_contents

run_all-IsReady_example : IsReady (run_all days history empty_contents)
run_all-IsReady_example = run_all-IsReady days history

run_once_at_exact_example :
    let (r, t) = run_once days (λ n. n) (text "d") false now in
    (summary : RetentionRunSummary) × (c' : Contents) × (r ≡ ok summary)
    × (t ≡ unlocked c')
    × (summary.organizations_scanned ≡ length (policies now.policies))
    × ((id : Uuid)
        → get c'.messages.messages_by_id id
          ≡ unless
              (λ (m : Message). m.id)
              (is_due_message days 100 now.policies)
              (get now.messages.messages_by_id id))
    × ((id : Uuid)
        → get c'.attachments.attachments_by_id id
          ≡ unless
              (λ (a : Attachment). a.id)
              (is_due_file days 100 now.policies)
              (get now.attachments.attachments_by_id id))
    × IsReady c'
unfolding trim is_whitespace
run_once_at_exact_example =
    run_once_at_exact days (λ n. n) (text "d") 100 now refl (run_all-IsReady days history)

run_once_at-dry_run_example :
    (summary : RetentionRunSummary) × (c' : Contents) × ((run_once days
        (λ n. n)
        (text "d")
        false
        now).0
      ≡ ok summary)
    × ((run_once days (λ n. n) (text "d") true now).0 ≡ ok (record summary { dry_run = true }))
    × ((run_once days (λ n. n) (text "d") true now).1 ≡ unlocked c')
    × SameButRuns days now c'
unfolding trim is_whitespace
run_once_at-dry_run_example =
    run_once_at-dry_run days (λ n. n) (text "d") 100 now refl (run_all-IsReady days history)
