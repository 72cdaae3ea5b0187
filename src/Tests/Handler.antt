-- ===== src/Tests/Handler.antt =====
-- Tasks, configurations and states of the task event handler (pkg/handler) for the runs below.
pub mod State
pub mod Spawn
pub mod Guards
use agent_task_executor.Common.{
  ℕ, Bool, true, false, Option, none, some, List, [], ◌∷◌, Result, ok, err,
}
use agent_task_executor.Text.{Text, codes}
use agent_task_executor.Handler.Int.{ℤ}
use agent_task_executor.Handler.Maps.{mem}
use agent_task_executor.Handler.Task.{Domain, Task, Config}
use agent_task_executor.Handler.TaskStore.{new_task_store}
use agent_task_executor.Handler.Deferred.{Queue}
use agent_task_executor.Handler.Filter.{Executor, HandlerState, Listing}

abbrev pub domain : Domain
domain = record {
  todo = codes "todo";
  phase_in_progress = codes "in_progress";
  human_review = codes "human_review";
  phase_done = codes "done";
  planning = codes "planning";
  execution = codes "execution";
  ai_review = codes "ai_review";
  in_progress = codes "in_progress";
  completed = codes "completed";
  aborted = codes "aborted";
  contains = λ ts t. mem t ts;
}

abbrev pub review : Task
review = record {
  id = codes "t1";
  vault = codes "v";
  status = codes "in_progress";
  phase = some (codes "execution");
  stage = codes "dev";
  assignee = codes "bot";
  task_type = codes "review";
  cluster = codes "sun";
  previous_assignee = [];
  current_job = [];
  job_started_at = none;
  queued_at = none;
  recurring = none;
  ref = some (codes "0123456789");
  trigger_scope = none;
  trigger_count = 1;
  has_max_triggers = false;
  max_triggers = 3;
  trigger_refusal = none;
}

abbrev pub bot : Config
bot = record {
  assignee = codes "bot";
  task_type = codes "review";
  task_types = [];
  default_for_task_types = [];
  trigger = none;
  image = codes "registry/bot:v1";
  max_concurrent_jobs = ℤ.pos 2;
  priority_class = codes "low";
  job_namespace = [];
}

abbrev pub other_bot : Config
other_bot = record bot { assignee = codes "other"; task_type = codes "build" }

abbrev pub executor : Executor
executor = record {
  cluster = codes "sun";
  run_untagged = true;
  stage_filter = true;
  branch = codes "dev";
  vault_name = codes "v";
}

abbrev pub listing : Listing
listing = ok (other_bot ∷ (bot ∷ []))

abbrev pub no_queue : Queue
no_queue = record { respawns = []; epochs = []; stamps = [] }

abbrev pub fresh_state : HandlerState
fresh_state = record {
  task_store = new_task_store;
  queue = no_queue;
  streaks = [];
  refused_gates = [];
  calls = [];
}
