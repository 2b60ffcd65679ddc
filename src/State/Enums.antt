-- ===== src/State/Enums.antt =====
-- internal/state/model.go: the named string types. A value that arrives in a snapshot may be any
-- string: `other` is one that is none of the constants.
use dev_board.Prelude.{String, Bool, true, false, str_eq}

pub data Activity : Type 0 where
  idle working attention error : Activity
  other : String → Activity

pub data Outcome : Type 0 where
  outcome_none completed failed : Outcome
  other : String → Outcome

pub data Freshness : Type 0 where
  fresh stale : Freshness
  other : String → Freshness

pub data SourceStatus : Type 0 where
  available degraded unavailable : SourceStatus
  other : String → SourceStatus

pub data NavigationAction : Type 0 where
  focus_app focus_agent focus_project open_project : NavigationAction
  other : String → NavigationAction

pub data NavigationKind : Type 0 where
  agent project app : NavigationKind
  other : String → NavigationKind

pub data NetworkQuality : Type 0 where
  unknown good degraded offline : NetworkQuality
  other : String → NetworkQuality

pub data AlertType : Type 0 where
  attention error complete stale : AlertType
  other : String → AlertType

pub data TaskLifecycle : Type 0 where
  working attention error complete : TaskLifecycle
  other : String → TaskLifecycle

pub data TaskConfidence : Type 0 where
  high degraded : TaskConfidence
  other : String → TaskConfidence

pub data TaskCheckpointKind : Type 0 where
  started inspecting editing running validating delegated subtask_completed background_wait :
      TaskCheckpointKind
  other : String → TaskCheckpointKind

pub data TaskAttentionKind : Type 0 where
  approval_needed question_waiting elicitation_waiting authentication_required billing_required
        rate_limited provider_action_required :
      TaskAttentionKind
  other : String → TaskAttentionKind

-- lifecycle == TaskComplete || lifecycle == TaskError
abbrev pub is_terminal : TaskLifecycle → Bool
is_terminal TaskLifecycle.complete = true
is_terminal TaskLifecycle.error = true
is_terminal _ = false

abbrev pub action_eq : NavigationAction → NavigationAction → Bool
action_eq NavigationAction.focus_app NavigationAction.focus_app = true
action_eq NavigationAction.focus_agent NavigationAction.focus_agent = true
action_eq NavigationAction.focus_project NavigationAction.focus_project = true
action_eq NavigationAction.open_project NavigationAction.open_project = true
action_eq (NavigationAction.other s) (NavigationAction.other t) = str_eq s t
action_eq _ _ = false
