-- ===== src/Coordinator/Tests.antt =====
-- The coordinator's theorems at concrete states, and a run of its loop.
use connect4codex.Prelude.{
  ◌≡◌, ◌↔◌, refl, sym, ap, Bool, true, false, none, List, [], ◌∷◌, ok, err, arith, get, string_eq,
  nat_eq,
}
use connect4codex.Prelude.Samples.{hundredths}
use connect4codex.Config.Tests.{defaults}
use connect4codex.Manifest.Tables.{find_attempt}
use connect4codex.Manifest.Statements.{get_state, champion, champion_row, state_number}
use connect4codex.Manifest.Tests.{
  root, started, waiting, candidate, won, started-Inv, waiting-Inv, waits, idle, arrived,
}
use connect4codex.Coordinator.State.{Coordinator, Event, child_failed, actor}
use connect4codex.Coordinator.Learner.{stored_attempt, stored_score, is_some}
use connect4codex.Coordinator.Handlers.{Outside, handle, on_arena, on_candidate}
use connect4codex.Coordinator.Loop.{backpressure, handle_all, proceed}
use connect4codex.Coordinator.Invariant.{IsSteady}
use connect4codex.Coordinator.Verdicts.{Settled, on_arena-Settled}
use connect4codex.Coordinator.Candidates.{
  Submitted, Interrupted, on_candidate-Submitted, on_candidate-stopping,
}
use connect4codex.Coordinator.Messages.{Protocol, handle_all-IsSteady}
use connect4codex.Coordinator.Pressure.{after_rounds, IsHeld, after_rounds-IsHeld}
use connect4codex.Coordinator.Generation.{Outcome, proceed-Outcome}

abbrev outside : Outside
outside = record {
  should_stop = λ n. false;
  override = none;
  now = "t2";
  folder = λ n. "000001";
  is_file = λ p. true;
}

abbrev began : Coordinator
began = record {
  manifest = started;
  actor_busy = false;
  arena_waiting = false;
  pending_deletions = [];
  paused_for_debt = false;
  trainer_budget = 0;
  trainer_fresh_games = 0;
  average_train_samples = 100;
  stop_requested = false;
  awaits_actor = false;
  awaits_trainer = false;
  candidate_decisions = 0;
  actor_commands = [];
  trainer_commands = [];
  deleted = [];
}

abbrev in_arena : Coordinator
in_arena = record began { manifest = waiting; arena_waiting = true }

began-IsSteady : IsSteady began
unfolding get_state get stored_attempt stored_score
began-IsSteady = record {
  manifest_inv = started-Inv;
  arena_matches = sym (ap is_some idle);
  readable = record { number = none; score = none; reads_number = refl; reads_score = refl };
}

in_arena-IsSteady : IsSteady in_arena
unfolding get_state get stored_attempt stored_score
in_arena-IsSteady = record {
  manifest_inv = waiting-Inv;
  arena_matches = sym (ap is_some waits);
  readable = record { number = none; score = none; reads_number = refl; reads_score = refl };
}

fails : (handle defaults outside (Event.failed actor) began).0 ≡ err child_failed
unfolding handle
fails = refl

paused_at_the_top : backpressure defaults 16 false ≡ true
unfolding backpressure
paused_at_the_top = refl

paused_between : backpressure defaults 12 true ≡ true
unfolding backpressure
paused_between = refl

on_arena-Settled_example :
    (c' : Coordinator) × ((on_arena defaults outside 1 won in_arena ≡ (ok tt, c'))
      × Settled defaults outside candidate won in_arena c')
on_arena-Settled_example =
    on_arena-Settled defaults outside candidate won in_arena in_arena-IsSteady waits refl

on_candidate-Submitted_example :
    (c' : Coordinator) × ((on_candidate defaults outside 30 100 6400 200 began ≡ (ok tt, c'))
      × Submitted defaults outside 30 100 6400 200 began c')
on_candidate-Submitted_example =
    on_candidate-Submitted defaults outside 30 100 6400 200 began began-IsSteady refl refl

abbrev stopped : Coordinator
stopped = record began { stop_requested = true }

stopped-IsSteady : IsSteady stopped
stopped-IsSteady = record {
  manifest_inv = began-IsSteady.manifest_inv;
  arena_matches = began-IsSteady.arena_matches;
  readable = began-IsSteady.readable;
}

on_candidate-stopping_example :
    (c' : Coordinator) × ((on_candidate defaults outside 30 100 6400 200 stopped ≡ (ok tt, c'))
      × Interrupted defaults outside 30 100 6400 200 stopped c')
on_candidate-stopping_example =
    on_candidate-stopping defaults outside 30 100 6400 200 stopped stopped-IsSteady refl refl

abbrev messages : List Event
messages = Event.shard true [] arrived ∷ Event.shard_removed 1 ∷ Event.decision_applied 0 0 ∷ []

follows : Protocol defaults outside messages began
unfolding get
follows = (
  (refl, (record defaults { replay_capacity_games = 40 }, refl)),
  λ c' e. (tt, λ c'' e'. (tt, λ c''' e''. tt)),
)

handle_all-IsSteady_example :
    (c' : Coordinator) × ((handle_all defaults outside messages began ≡ (ok tt, c')) × IsSteady c')
handle_all-IsSteady_example =
    handle_all-IsSteady defaults outside messages began refl began-IsSteady follows

after_rounds-IsHeld_example :
    (after_rounds defaults (3 ∷ 17 ∷ 12 ∷ []) false ≡ true)
    ↔ IsHeld defaults (3 ∷ 17 ∷ 12 ∷ []) false
after_rounds-IsHeld_example = after_rounds-IsHeld defaults (3 ∷ 17 ∷ 12 ∷ []) false (omega arith)

first_game : state_number 1 (get_state "next_game_id" began.manifest) ≡ ok 1
unfolding state_number get_state get
first_game = refl

led : champion began.manifest ≡ ok root
unfolding champion champion_row get_state get find_attempt
led = refl

proceed-Outcome_example :
    (finished : Bool) × ((c' : Coordinator) × ((proceed defaults outside true began
          ≡ (ok finished, c'))
        × Outcome defaults began c' finished root 1))
proceed-Outcome_example = proceed-Outcome defaults outside root 1 began led first_game
