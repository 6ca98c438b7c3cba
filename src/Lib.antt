-- ===== src/Lib.antt =====
-- Connect4Codex: a model of the Python side of its Connect Four trainer, under src/c4a0.
--
-- A run is three processes. The coordinator (`_run_async_training_owned` of src/c4a0/training_v2.py)
-- owns the manifest, a SQLite file. It has the actor play games by the champion, stores the shards of
-- games that come back, and shares them with the trainer. The trainer submits candidates; the actor
-- plays each against the champion in the arena, and the coordinator promotes or rejects it. Apart from
-- this, the ladder (src/c4a0/minimax_harness.py) measures a model against random play and minimax, and
-- the desktop program queues its jobs, a worker process each (src/c4a0/gui/jobs.py).
--
--   Prelude      Tests, lists, dictionaries, integers, an action that returns or raises (`Exec`), and
--                `Floats`: a type with the operations the code uses and no law. Every model of
--                code that computes with floats has it as a parameter. Two theorems have
--                hypotheses on them: on the order of finite floats, and on whole numbers.
--   Config       `TrainingV2Config` of src/c4a0/config.py: the record in Config/Training, its bounds and
--                validators in Config/Checks. Accepted has what the arena needs of an accepted one, Runs
--                the arena with such a one, Schedules the learning rates of such a one.
--   Manifest     `RunManifest`. Manifest/Tables has the tables, each the list of its rows by rising key;
--                Manifest/Statements a definition for each method and statement; Manifest/Artifacts
--                the paths. Rows, Invariant, Decisions, Window and Kept prove, from the rows to the
--                methods; Paths about paths.
--   Coordinator  Coordinator/State has the loop's variables and the messages, Handlers an `on_...` for each
--                kind of message with `handle` over all, Learner the choice of the learner's weights and
--                `_prune_rejected`, and Loop the start and one round. The rest proves: Steps, Pruning,
--                Learning and Choice the parts of `on_arena`, then Verdicts, Candidates, Shards,
--                Messages, Pressure and Generation.
--   Arena        src/c4a0/arena_statistics.py in Arena/Likelihood and Arena/Gate, `_run_arena` in Arena/Run.
--                Counts, Verdict, Rounds and Ends prove what a game, a decision, a batch and the loop
--                do; Reports what the report says.
--   Openings     `_arena_openings`: the board, its winner and key in Openings/Board, the draws and the list in
--                Openings/Draw. Distinct, Found, Loop and Pairs prove about positions, what is accepted, the
--                passes and the list; Lines, Cells and Images about mirror images; Openings/Arena about
--                the arena that plays them.
--   Minimax      The opponent of src/c4a0/minimax_harness.py: bitboards, a search to a depth with a cache
--                and polls for cancellation, and the policy of a batch. Negamax is the plain search
--                that the proofs compare it with, translated from no code. Computes, Cached and
--                Bounds prove about a search, Moves, Best, Optimal, Bits, Boards and Rows about a batch.
--   Ladder       `evaluate_minimax_ladder`, in Ladder/Levels.
--   League       The opponents of self-play: the baselines' identifiers in League/Ids, `_allocate_counts` and
--                `_league_requests` in League/Requests. Codes proves about the identifiers, Allocation
--                and Fairness about the counts, Mixing about the shuffled categories, Seats and Deals
--                about the games.
--   Schedule     The learning rate's schedule, from src/c4a0/training_common.py and `_learning_rate`,
--                in Schedule/Rates; Sorting, Reached and Parsing prove.
--   Replay       The replay window that the trainer draws from: the pool in Replay/Pool, the batch drawn
--                ahead in Replay/Prefetcher. Caching, Batches, Rows, Partition, Prefetching and Threads
--                prove.
--   Trainer      `_trainer_process`: State has its variables, Commands what it takes from its queue,
--                Rounds a step on a batch, the validation and the candidate. Quiet, Steady and Runs
--                prove about the parts of a round, Ledger, Progress and Submits about its runs.
--   Jobs         `JobManager`: State, Worker (what is read from a worker and how it is stopped) and Slots.
--
-- The arena's requests and the league's have the same type, `Request` of Arena/Run, and the openings that
-- Openings draws are the list the arena plays.
--
-- A state is a record, and what changes it a function to the next state, with an error beside it where
-- the code raises; what was written before an error stays, except where the code rolls back. Loops
-- are recursive over their lists, or have fuel: the arena as much as there are openings, a level of the
-- ladder one more than its games, and the drawing of openings the passes that a lively generator needs;
-- each is shown to be enough. Scores of games are half points.
--
-- Parameters stand for what is not in these files: the games that the C++ engine plays, the logarithm,
-- the clock, callbacks, random generators (a theorem on the league has as hypotheses that its shuffle is
-- a permutation and that its choice is from the list), PyTorch's steps and losses, the file system
-- (`Path.resolve`, which weights exist), what json and pydantic make of a job's configuration, and a
-- float read as a whole number. Numbers of games, samples and steps are natural numbers.
--
-- Not modelled: the actor process, the evaluation of positions by networks and by the random baseline,
-- recovery from files at the start, the worker process, the tournament, the checkpoint callback, the
-- network, the earlier training loop, benchmarks, the command line and the desktop interface. They call
-- PyTorch, NumPy, Optuna, Qt or the file system for most of what they do. Left out of what is modelled:
-- progress reports, TensorBoard scalars, elapsed times and the text of logs.
mod Prelude
pub mod Config
pub mod Minimax
pub mod Arena
pub mod Openings
pub mod Manifest
pub mod Coordinator
pub mod Jobs
pub mod Ladder
pub mod League
pub mod Schedule
pub mod Replay
pub mod Trainer
