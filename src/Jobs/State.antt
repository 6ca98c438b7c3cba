-- ===== src/Jobs/State.antt =====
-- The variables of `JobManager`. Qt's signals, the text of results and logs and the live display are
-- left out; a process is known by its place among those that were started.
use Prim.Native.String.{String}
use text.Mathlib.Text.{◌==◌ as str_eq}
use connect4codex.Prelude.{ℕ, Bool, Option, none, some, List, Floats, if◌then◌else◌}

pub data Kind : Type 0 where
  training solver_score tournament nn_sweep mcts_sweep validation : Kind

-- JOB_CONFIG_TYPES.get(kind)
unfoldable pub kind_of : String → Option Kind
kind_of s =
    if str_eq s "training"
    then some training
    else if str_eq s "solver_score"
    then some solver_score
    else if str_eq s "tournament"
    then some tournament
    else if str_eq s "nn_sweep"
    then some nn_sweep
    else if str_eq s "mcts_sweep"
    then some mcts_sweep
    else if str_eq s "validation"
    then some validation
    else none

pub record Job : Type 0 where
  pub kind : Kind
  pub title : String
  pub config : String
  pub id : ℕ

pub data Ending : Type 0 where
  completed cancelled failed : Ending

pub data Phase : Type 0 where
  idle starting running cancelling : Phase
  named : String → Phase
  ended : Ending → Phase

pub record Recent : Type 0 where
  pub job : Job
  pub status : Phase

-- What is written to a worker.
pub data Written : Type 0 where
  request : Job → Written
  stop_after_generation : Written

module _ ⦃fl : Floats⦄ where
  -- A worker's event, and a line of its output: one that is no event of version 1, one whose handling
  -- raises, or an event.
  pub data Message : Type 0 where
    started : (process_group : ℕ) → Message
    phase : String → Message
    progress : fl.F → Message
    shown : Message
    terminal : Ending → Message
    unknown : Message

  pub data Line : Type 0 where
    blank noise bad : Line
    event : Message → Line

  pub record JobManager : Type 0 where
    pub queue : List Job
    pub current : Option Job
    pub process : Option ℕ
    pub launched : List Job
    pub recent : List Recent
    pub shutting_down : Bool
    pub cancel_timer : Option ℕ
    pub worker_group : Option ℕ
    pub phase : Phase
    pub progress : fl.F
    pub saw_terminal_event : Bool
    pub stop_after_generation_requested : Bool
    pub written : List (ℕ × Written)
    pub terminated : List ℕ
    pub killed : List ℕ
    pub killed_groups : List ℕ
