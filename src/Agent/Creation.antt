-- ===== src/Agent/Creation.antt =====
-- internal/agent/task_reducer.go: the task that a prompt creates. The hexadecimal text of the first 16
-- bytes of SHA-256 is a parameter.
use dev_board.Prelude.{
  ℕ, ◌≤◌, String, Bool, true, false, ◌||◌, Option, none, some, List, [], ◌∷◌, ◌++◌, if◌then◌else◌,
  arith,
}
use dev_board.Prelude.Text.{codes}
use dev_board.State.Enums.{Freshness, TaskLifecycle, TaskConfidence, started}
use dev_board.State.Internal.{AgentState, TaskProjectContext, TaskState}
use dev_board.Agent.Sanitize.{
  bytes, code_bytes, truncate_utf8, normalize_single_line, bytes-truncate_utf8,
}
use dev_board.Agent.Events.{Provider, codex, claude, AgentEvent}
use dev_board.Agent.Checkpoints.{
  max_task_checkpoint_bytes, max_attention_text_bytes, set_task_checkpoint,
  task_checkpoint_priority,
}
use dev_board.Agent.Tasks.Laws.{apply_all, CheckpointFits, AttentionFits, apply_all-fits}

abbrev pub max_task_title_bytes : ℕ
max_task_title_bytes = 96

abbrev pub provider_text : Provider → String
provider_text codex = "codex"
provider_text claude = "claude-code"
provider_text (Provider.other s) = s

abbrev pub display_provider : Provider → List ℕ
display_provider claude = codes "Claude Code"
display_provider _ = codes "Codex"

unfoldable pub project_title : Option TaskProjectContext → Provider → List ℕ
project_title none p = display_provider p ++ codes " task"
project_title (some project) p = elim project.project_name [
  | [] ↦ display_provider p ++ codes " task"
  | c ∷ cs ↦ truncate_utf8 ((c ∷ cs) ++ codes " · " ++ display_provider p) max_task_title_bytes
]

unfoldable pub fallback_task_title : Option (List ℕ) → Option TaskProjectContext → Provider → List ℕ
fallback_task_title none project p = project_title project p
fallback_task_title (some []) project p = project_title project p
fallback_task_title (some (c ∷ cs)) project p = truncate_utf8 (c ∷ cs) max_task_title_bytes

abbrev pub is_none {ℓ} : {A : Type ℓ} → Option A → Bool
is_none none = true
is_none (some x) = false

abbrev pub turn_text : Option String → String
turn_text none = ""
turn_text (some s) = s

module _ (hex_digest : List ℕ → List ℕ) where
  -- Each part is closed by a zero byte.
  unfoldable pub opaque_task_id : Provider → String → String → List ℕ
  opaque_task_id p session_id turn_id =
      codes "task-"
      ++ hex_digest (codes (provider_text p) ++ 0 ∷ codes session_id ++ 0 ∷ codes turn_id ++ 0 ∷ [])

  unfoldable pub new_task_state : AgentEvent → Option TaskProjectContext → TaskState
  new_task_state e project =
      let t : TaskState = record {
        id = opaque_task_id e.provider e.session_id (turn_text e.turn_id);
        provider = provider_text e.provider;
        session_id = e.session_id;
        turn_id = turn_text e.turn_id;
        project = project;
        title = fallback_task_title e.metadata.task_title project e.provider;
        lifecycle = TaskLifecycle.working;
        freshness = Freshness.fresh;
        confidence =
            if e.metadata.synthetic_turn_identity || is_none project
            then TaskConfidence.degraded
            else TaskConfidence.high;
        started_at = e.occurred_at;
        updated_at = e.occurred_at;
        checkpoint = none;
        attention = none;
        completion = none;
        read_at = none;
        superseded_at = none;
      } in
      set_task_checkpoint t started (codes "Task started") e.occurred_at false

plain_title : (p : Provider) → bytes (display_provider p ++ codes " task") ≤ max_task_title_bytes
unfolding bytes codes code_bytes
plain_title codex = omega arith
plain_title claude = omega arith
plain_title (Provider.other s) = omega arith

bytes-project_title :
    (project : Option TaskProjectContext) (p : Provider)
    → bytes (project_title project p) ≤ max_task_title_bytes
unfolding project_title
bytes-project_title none p = plain_title p
bytes-project_title (some project) p = go project.project_name
  where
    go :
        (name : List ℕ)
        → bytes (elim name [
          | [] ↦ display_provider p ++ codes " task"
          | c ∷ cs ↦
              truncate_utf8 ((c ∷ cs) ++ codes " · " ++ display_provider p) max_task_title_bytes
        ])
          ≤ max_task_title_bytes
    go [] = plain_title p
    go (c ∷ cs) =
        bytes-truncate_utf8 ((c ∷ cs) ++ codes " · " ++ display_provider p) max_task_title_bytes

bytes-fallback_task_title :
    (title : Option (List ℕ)) (project : Option TaskProjectContext) (p : Provider)
    → bytes (fallback_task_title title project p) ≤ max_task_title_bytes
unfolding fallback_task_title
bytes-fallback_task_title none project p = bytes-project_title project p
bytes-fallback_task_title (some []) project p = bytes-project_title project p
bytes-fallback_task_title (some (c ∷ cs)) project p =
    bytes-truncate_utf8 (c ∷ cs) max_task_title_bytes

-- The task that any event creates has a title of at most 96 bytes, and over any further events the text
-- of its checkpoint stays within 120 bytes, the text of its attention within 160 and the correlation id
-- within 96.
pub new_task_state-fits :
    (hex_digest : List ℕ → List ℕ) (e : AgentEvent) (project : Option TaskProjectContext)
    (es : List (Option AgentState × AgentEvent))
    → (bytes (new_task_state hex_digest e project).title ≤ max_task_title_bytes)
      × CheckpointFits max_task_checkpoint_bytes
          (apply_all (new_task_state hex_digest e project) es).checkpoint
      × AttentionFits max_attention_text_bytes
          (apply_all (new_task_state hex_digest e project) es).attention
unfolding new_task_state set_task_checkpoint task_checkpoint_priority
new_task_state-fits hex_digest e project es =
    let (c, a) =
      apply_all-fits (new_task_state hex_digest e project) es
        (bytes-truncate_utf8 (normalize_single_line (codes "Task started"))
          max_task_checkpoint_bytes)
        tt in
    (bytes-fallback_task_title e.metadata.task_title project e.provider, c, a)
