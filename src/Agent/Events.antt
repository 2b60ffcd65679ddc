-- ===== src/Agent/Events.antt =====
-- internal/agent/event.go: the normalized event and its validation, with the fixed vocabularies of
-- internal/agent/adapters.go. Texts are lists of code points.
use dev_board.Prelude.{
  ℕ, String, str_eq, Bool, true, false, not, ◌&&◌, ◌||◌, Option, none, some, List, ltb, ◌==◌,
  if◌then◌else◌, Result, ok, ◌>>◌, refuse_if,
}
use dev_board.Prelude.Text.{is_blank}
use dev_board.Prelude.Time.{Instant, is_zero}
use dev_board.Agent.Sanitize.{bytes}

pub data Provider : Type 0 where
  codex claude : Provider
  other : String → Provider

pub data EventType : Type 0 where
  user_prompt_submit pre_tool_use ask_user_question permission_request post_tool_use
        post_tool_use_failure permission_denied notification subagent_start subagent_stop
        task_created task_completed stop stop_failure session_end elicitation elicitation_result :
      EventType
  other : String → EventType

pub record Metadata : Type 0 where
  pub tool_name : Option (List ℕ)
  pub correlation_id : Option (List ℕ)
  pub permission_mode : Option (List ℕ)
  pub notification_type : Option String
  pub error_type : Option String
  pub stop_hook_active : Option Bool
  pub background_task_count : Option ℕ
  pub session_cron_count : Option ℕ
  pub synthetic_turn_identity : Bool
  pub task_title : Option (List ℕ)
  pub child_subject : Option (List ℕ)
  pub completion_summary : Option (List ℕ)
  pub result_identifier : Option (List ℕ)

pub record AgentEvent : Type 0 where
  pub schema_version : ℕ
  pub event_id : String
  pub provider : Provider
  pub session_id : String
  pub turn_id : Option String
  pub event_type : EventType
  pub occurred_at : Instant
  pub cwd : Option String
  pub metadata : Metadata

pub data EventError : Type 0 where
  bad_schema_version ids_required bad_provider occurred_at_required bad_event_type
        bad_codex_event_type bad_notification_type bad_error_type text_too_large :
      EventError

abbrev pub is_provider : Provider → Bool
is_provider (Provider.other s) = false
is_provider _ = true

abbrev pub is_known : EventType → Bool
is_known (EventType.other s) = false
is_known _ = true

-- The event types that Codex does not have.
unfoldable pub not_of_codex : EventType → Bool
not_of_codex post_tool_use_failure = true
not_of_codex permission_denied = true
not_of_codex notification = true
not_of_codex task_created = true
not_of_codex task_completed = true
not_of_codex stop_failure = true
not_of_codex elicitation = true
not_of_codex elicitation_result = true
not_of_codex ask_user_question = true
not_of_codex _ = false

abbrev pub is_codex : Provider → Bool
is_codex codex = true
is_codex _ = false

unfoldable pub safe_notification_type : String → Bool
safe_notification_type s =
    str_eq s "permission_prompt"
    || str_eq s "elicitation_dialog"
    || str_eq s "elicitation_url_dialog"
    || str_eq s "idle_prompt"

unfoldable pub safe_error_type : String → String
safe_error_type s =
    if str_eq s "rate_limit"
      || str_eq s "overloaded"
      || str_eq s "authentication_failed"
      || str_eq s "oauth_org_not_allowed"
      || str_eq s "billing_error"
      || str_eq s "invalid_request"
      || str_eq s "model_not_found"
      || str_eq s "server_error"
      || str_eq s "max_output_tokens"
      || str_eq s "unknown"
    then s
    else "unknown"

abbrev pub unsafe_notification : Option String → Bool
unsafe_notification none = false
unsafe_notification (some s) = not (safe_notification_type s)

abbrev pub unsafe_error : Option String → Bool
unsafe_error none = false
unsafe_error (some s) = not (str_eq (safe_error_type s) s)

abbrev pub too_large : Option (List ℕ) → ℕ → Bool
too_large none max = false
too_large (some s) max = ltb max (bytes s)

unfoldable pub validate : AgentEvent → Result EventError (Unit {0})
validate e = do
  refuse_if (not (e.schema_version == 1)) bad_schema_version
  refuse_if (is_blank e.event_id || is_blank e.session_id) ids_required
  refuse_if (not (is_provider e.provider)) bad_provider
  refuse_if (is_zero e.occurred_at) occurred_at_required
  refuse_if (not (is_known e.event_type)) bad_event_type
  refuse_if (is_codex e.provider && not_of_codex e.event_type) bad_codex_event_type
  refuse_if (unsafe_notification e.metadata.notification_type) bad_notification_type
  refuse_if (unsafe_error e.metadata.error_type) bad_error_type
  refuse_if (too_large e.metadata.tool_name 96) text_too_large
  refuse_if (too_large e.metadata.correlation_id 96) text_too_large
  refuse_if (too_large e.metadata.task_title 96) text_too_large
  refuse_if (too_large e.metadata.child_subject 96) text_too_large
  refuse_if (too_large e.metadata.completion_summary 320) text_too_large
  refuse_if (too_large e.metadata.result_identifier 96) text_too_large
  ok tt
