-- ===== src/Coordinator/Generation.antt =====
-- When self-play is queued, and the coordinator's start.
use connect4codex.Prelude.{
  not-true, ℕ, ◌<◌, ◌≡◌, refl, ap, ◌∙◌, ◌⊎◌, Bool, true, false, List, [], ◌∷◌, ◌++◌, Floats, ok,
  if◌then◌else◌, bind-ok, ◌>>=◌, ◌>>◌, pure, gets, modify, Bool-cases, inl, inr, ltb→lt, and_true,
  or_false, string_eq,
}
use connect4codex.Config.Training.{TrainingV2Config}
use connect4codex.Manifest.Tables.{Attempt}
use connect4codex.Manifest.Statements.{
  get_state, state_number, champion, accepted_models, past_champions,
}
use connect4codex.Manifest.Kept.{accepted_models-ok}
use connect4codex.Coordinator.State.{Coordinator, generate, send_actor}
use connect4codex.Coordinator.Handlers.{Outside, value_of}
use connect4codex.Coordinator.Loop.{queue_generation, is_done, may_generate, proceed}

module _ ⦃fl : Floats⦄ where
  module _ (config : TrainingV2Config) where
    -- The state with self-play queued for a champion.
    abbrev pub queued : Attempt → ℕ → Coordinator → Coordinator
    queued leader first c =
        let archives = past_champions config.archive_depth leader c.manifest.attempts in
        record c {
          actor_commands = c.actor_commands ++ generate leader archives first ∷ [];
          actor_busy = true;
        }

    queue_lem :
        (leader : Attempt) (first : ℕ) (c : Coordinator)
        → champion c.manifest ≡ ok leader
        → state_number 1 (get_state "next_game_id" c.manifest) ≡ ok first
        → queue_generation config c ≡ (ok tt, queued leader first c)
    unfolding queue_generation
    queue_lem leader first c e f =
        let send = λ (leader : Attempt) (archives : List Attempt) (first : ℕ).
          send_actor (generate leader archives first)
          >> modify (λ c. record c { actor_busy = true }) in
        let number =
          λ (c : Coordinator). value_of (state_number 1 (get_state "next_game_id" c.manifest)) c in
        let models =
          λ (c : Coordinator). value_of (accepted_models config.archive_depth c.manifest) c in
        let archives = past_champions config.archive_depth leader c.manifest.attempts in
        bind-ok (λ c. value_of (champion c.manifest) c)
          (λ leader. models >>= λ archives. number >>= λ first. send leader archives first) c
          (ap (λ q. value_of q c) e)
        ∙ bind-ok models (λ archives. number >>= λ first. send leader archives first) c
            (ap (λ q. value_of q c) (accepted_models-ok config.archive_depth leader c.manifest e))
        ∙ bind-ok number (λ first. send leader archives first) c (ap (λ q. value_of q c) f)

    -- When self-play may start.
    pub record IsFree (c : Coordinator) : Type 0 where
      pub idle : c.actor_busy ≡ false
      pub no_arena : c.arena_waiting ≡ false
      pub unpaused : c.paused_for_debt ≡ false
      pub short : c.trainer_fresh_games < config.replay_warmup_games
      pub confirmed : (c.awaits_actor ≡ false) × (c.awaits_trainer ≡ false)
      pub running : c.stop_requested ≡ false

    free_lem : (c : Coordinator) → may_generate config c ≡ true → IsFree c
    unfolding may_generate
    free_lem c h =
        let (h1, run) = and_true _ _ h in
        let (h2, none_awaited) = and_true _ _ h1 in
        let (h3, few) = and_true _ _ h2 in
        let (h4, calm) = and_true _ _ h3 in
        let (free, still) = and_true _ _ h4 in
        record {
          idle = not-true _ free;
          no_arena = not-true _ still;
          unpaused = not-true _ calm;
          short = ltb→lt _ _ few;
          confirmed = or_false _ _ (not-true _ none_awaited);
          running = not-true _ run;
        }

    -- The outcomes of the end of a round.
    abbrev pub Outcome : Coordinator → Coordinator → Bool → Attempt → ℕ → Type 0
    Outcome c c' finished leader first =
        ((finished ≡ true) × (c.stop_requested ≡ true) × (c.arena_waiting ≡ false) × (c' ≡ c))
        ⊎ ((finished ≡ false) × ((c' ≡ c) ⊎ (IsFree c × (c' ≡ queued leader first c))))

    module _ (o : Outside) where
      done_lem :
          (c : Coordinator)
          → is_done c ≡ true
          → (proceed config o true c ≡ (ok true, c))
            × (c.stop_requested ≡ true)
            × (c.arena_waiting ≡ false)
      unfolding proceed is_done
      done_lem c h =
          let (h1, _) = and_true _ _ h in
          let (stop, still) = and_true _ _ h1 in
          (
            ap
                (λ b.
                  (if b
                      then pure true
                      else (gets (may_generate config) >>= λ more.
                          (if more then queue_generation config else pure tt) >> pure false))
                    c)
                h,
            stop,
            not-true _ still,
          )

      more_lem :
          (more : Bool) (c : Coordinator)
          → is_done c ≡ false
          → may_generate config c ≡ more
          → proceed config o true c
            ≡ ((if more then queue_generation config else pure tt) >> pure false) c
      unfolding proceed
      more_lem more c h e =
          ap
            (λ b.
              (if b
                  then pure true
                  else (gets (may_generate config) >>= λ more.
                      (if more then queue_generation config else pure tt) >> pure false))
                c)
            h
          ∙ ap (λ b. ((if b then queue_generation config else pure tt) >> pure false) c) e

      -- With both children alive, the end of a round raises nothing where the champion and the next game
      -- can be read. It ends the run only once a stop was requested and no arena is awaited; otherwise it
      -- changes nothing, or queues one batch of self-play for the champion, and this only if the actor is
      -- free, no arena and no child is awaited, self-play is not paused, fresh games are short of the
      -- warm-up and no stop was requested.
      pub proceed-Outcome :
          (leader : Attempt) (first : ℕ) (c : Coordinator)
          → champion c.manifest ≡ ok leader
          → state_number 1 (get_state "next_game_id" c.manifest) ≡ ok first
          → (finished : Bool) × ((c' : Coordinator) × ((proceed config o true c ≡ (ok finished, c'))
                × Outcome c c' finished leader first))
      proceed-Outcome leader first c e f = elim (Bool-cases (is_done c)) [
        | inl d ↦
            let (r, stop, still) = done_lem c d in (true, (c, (r, inl (refl, stop, still, refl))))
        | inr d ↦ elim (Bool-cases (may_generate config c)) [
          | inr m ↦ (false, (c, (more_lem false c d m, inr (refl, inl refl))))
          | inl m ↦ (
            false,
            (
              queued leader first c,
              (
                more_lem true c d m
                    ∙ bind-ok (queue_generation config) (λ u. pure false) c
                        (queue_lem leader first c e f),
                inr (refl, inr (free_lem c m, refl)),
              ),
            ),
          )
        ]
      ]
