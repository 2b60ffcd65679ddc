-- ===== src/Agent/Checkpoints.antt =====
-- internal/agent/task_reducer.go: the checkpoint that an event sets.
use dev_board.Prelude.{
  ℕ, ◌-◌, ◌*◌, String, Bool, true, false, not, ◌&&◌, ◌||◌, Option, none, some, List, [], ◌∷◌, ◌++◌,
  leb, if◌then◌else◌,
}
use dev_board.Prelude.Text.{codes, codes_eq, trim_space, to_lower}
use dev_board.Prelude.Time.{Instant, second, before}
use dev_board.State.Enums.{
  TaskCheckpointKind, started, inspecting, editing, running, validating, delegated,
  subtask_completed, background_wait,
}
use dev_board.State.Internal.{TaskCheckpoint, TaskState}
use dev_board.Agent.Sanitize.{truncate_utf8, normalize_single_line}
use dev_board.Agent.Events.{EventType, AgentEvent}

abbrev pub max_task_checkpoint_bytes : ℕ
max_task_checkpoint_bytes = 120

abbrev pub max_attention_text_bytes : ℕ
max_attention_text_bytes = 160

-- The priority of a kind of checkpoint; `none` is one below all others.
unfoldable pub task_checkpoint_priority : TaskCheckpointKind → Option ℕ
task_checkpoint_priority background_wait = some 60
task_checkpoint_priority subtask_completed = some 50
task_checkpoint_priority delegated = some 45
task_checkpoint_priority validating = some 40
task_checkpoint_priority editing = some 30
task_checkpoint_priority inspecting = some 30
task_checkpoint_priority running = some 10
task_checkpoint_priority started = some 0
task_checkpoint_priority (TaskCheckpointKind.other s) = none

unfoldable pub checkpoint_base : TaskCheckpointKind → List ℕ
unfolding codes
checkpoint_base started = codes "Task started"
checkpoint_base inspecting = codes "Inspecting"
checkpoint_base editing = codes "Editing"
checkpoint_base running = codes "Running"
checkpoint_base validating = codes "Validating"
checkpoint_base delegated = codes "Delegated work"
checkpoint_base subtask_completed = codes "Subtask completed"
checkpoint_base background_wait = codes "Waiting for background work"
checkpoint_base (TaskCheckpointKind.other s) = []

abbrev pub names_subject : TaskCheckpointKind → Bool
names_subject delegated = true
names_subject subtask_completed = true
names_subject _ = false

-- " · " before the subject, if there is one to name.
unfoldable pub subject_part : TaskCheckpointKind → Option (List ℕ) → List ℕ
unfolding codes
subject_part k none = []
subject_part k (some []) = []
subject_part k (some (c ∷ cs)) = if names_subject k then codes " · " ++ c ∷ cs else []

unfoldable pub checkpoint_text : TaskCheckpointKind → Option (List ℕ) → List ℕ
checkpoint_text k subject =
    truncate_utf8 (checkpoint_base k ++ subject_part k subject) max_task_checkpoint_bytes

abbrev pub is_background_wait : TaskCheckpointKind → Bool
is_background_wait background_wait = true
is_background_wait _ = false

-- newPriority >= oldPriority
abbrev pub at_least : ℕ → Option ℕ → Bool
at_least new none = true
at_least new (some old) = leb old new

unfoldable pub replaces : TaskCheckpoint → ℕ → Instant → Bool → Bool
replaces old priority at authoritative_resume =
    (authoritative_resume && is_background_wait old.kind)
    || at_least priority (task_checkpoint_priority old.kind)
    || (not (before at old.at) && leb (30 * second) (at - old.at))

unfoldable pub set_task_checkpoint :
    TaskState → TaskCheckpointKind → List ℕ → Instant → Bool → TaskState
set_task_checkpoint t k text at authoritative_resume = elim (task_checkpoint_priority k) [
  | none ↦ t
  | some priority ↦
      let new : TaskCheckpoint = record {
        kind = k;
        text = truncate_utf8 (normalize_single_line text) max_task_checkpoint_bytes;
        at = at;
      } in
      elim t.checkpoint [
        | none ↦ record t { checkpoint = some new }
        | some old ↦
            if replaces old priority at authoritative_resume
            then record t { checkpoint = some new }
            else t
      ]
]

unfoldable pub is_word : List ℕ → List String → Bool
unfolding codes codes_eq
is_word token [] = false
is_word token (w ∷ ws) = codes_eq token (codes w) || is_word token ws

unfoldable pub any_word : List (List ℕ) → List String → Bool
unfolding is_word
any_word [] ws = false
any_word (token ∷ tokens) ws = is_word token ws || any_word tokens ws

abbrev pub is_separator : ℕ → Bool
is_separator c = is_word (c ∷ []) ("-" ∷ "_" ∷ "/" ∷ "." ∷ ":" ∷ " " ∷ [])

abbrev pub push_token : List ℕ → List (List ℕ) → List (List ℕ)
push_token [] tokens = tokens
push_token (c ∷ cs) tokens = (c ∷ cs) ∷ tokens

-- strings.FieldsFunc, with the token that has begun
unfoldable pub tokens_of : List ℕ → List ℕ → List (List ℕ)
tokens_of begun [] = push_token begun []
tokens_of begun (c ∷ cs) =
    let cut = tokens_of [] cs in
    let grown = tokens_of (begun ++ c ∷ []) cs in
    if is_separator c then push_token begun cut else grown

unfoldable pub tool_checkpoint : List ℕ → TaskCheckpointKind
unfolding codes codes_eq is_word any_word tokens_of trim_space to_lower
tool_checkpoint tool =
    let name = to_lower (trim_space tool) in
    let tokens = tokens_of [] name in
    if codes_eq name []
    then running
    else if is_word name ("bash" ∷ "shell" ∷ "exec" ∷ "command" ∷ "terminal" ∷ "run_command" ∷ [])
    then running
    else if any_word tokens (
        "test" ∷ "tests" ∷ "testing" ∷ "pytest" ∷ "gotest" ∷ "build" ∷ "lint" ∷ "vet" ∷ "validate"
        ∷ "validation" ∷ "typecheck" ∷ [])
    then validating
    else if any_word tokens (
        "edit" ∷ "write" ∷ "patch" ∷ "applypatch" ∷ "apply" ∷ "replace" ∷ "multiedit"
        ∷ "notebookedit" ∷ [])
    then editing
    else if any_word tokens
        ("read" ∷ "search" ∷ "list" ∷ "grep" ∷ "glob" ∷ "find" ∷ "browse" ∷ "view" ∷ "ls" ∷ [])
    then inspecting
    else running

abbrev pub or_empty : Option (List ℕ) → List ℕ
or_empty none = []
or_empty (some s) = s

-- The kind and the text; every such event also resumes from a background wait.
unfoldable pub checkpoint_for_event : AgentEvent → EventType → Option (TaskCheckpointKind × List ℕ)
checkpoint_for_event e EventType.pre_tool_use =
    let k = tool_checkpoint (or_empty e.metadata.tool_name) in some (k, checkpoint_text k none)
checkpoint_for_event e EventType.post_tool_use =
    let k = tool_checkpoint (or_empty e.metadata.tool_name) in some (k, checkpoint_text k none)
checkpoint_for_event e EventType.post_tool_use_failure =
    let k = tool_checkpoint (or_empty e.metadata.tool_name) in some (k, checkpoint_text k none)
checkpoint_for_event e EventType.subagent_start =
    some (delegated, checkpoint_text delegated e.metadata.child_subject)
checkpoint_for_event e EventType.task_created =
    some (delegated, checkpoint_text delegated e.metadata.child_subject)
checkpoint_for_event e EventType.subagent_stop =
    some (subtask_completed, checkpoint_text subtask_completed e.metadata.child_subject)
checkpoint_for_event e EventType.task_completed =
    some (subtask_completed, checkpoint_text subtask_completed e.metadata.child_subject)
checkpoint_for_event e _ = none
