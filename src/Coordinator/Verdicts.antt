-- ===== src/Coordinator/Verdicts.antt =====
-- What the coordinator has done once the arena's result is handled.
use Prim.Native.String.{String}
use connect4codex.Prelude.{
  ◌↔◌, ℕ, suc, ◌+◌, ◌≡◌, refl, ap, sym, ◌∙◌, true, false, Option, none, some, List, [], ◌∷◌, ◌++◌,
  Floats, ok, if◌then◌else◌, ◌==◌, string_eq, arith,
}
use mathlib.Core.Path.{subst}
use connect4codex.Config.Training.{TrainingV2Config}
use connect4codex.Manifest.Tables.{Artifact, Attempt, accepted, Value, num, Manifest, ArenaResult}
use connect4codex.Manifest.Statements.{
  get_state, state_number, champion, accepted_models, past_champions, pending_attempt, is_accepted,
  decide_attempt,
}
use connect4codex.Manifest.Invariant.{Inv, champion-Inv, state_at}
use connect4codex.Manifest.Decisions.{decide_attempt-Inv, number_of}
use connect4codex.Manifest.Kept.{
  Kept-trans, Kept-Inv, Kept-champion, Kept-pending, set_state-Kept, get_state-other,
  get_state-decide_attempt, accepted_models-ok,
}
use connect4codex.Coordinator.State.{Coordinator, reload}
use connect4codex.Coordinator.Learner.{is_some, stored_attempt, stored_score, prune_rejected}
use connect4codex.Coordinator.Pruning.{AreStale, prune_rejected-AreStale}
use connect4codex.Coordinator.Learning.{LearnsFrom, Stops, stop_after-Stops}
use connect4codex.Coordinator.Handlers.{
  Outside, on_arena, with_result, match_pending, overruled, conclude, finish,
}
use connect4codex.Coordinator.Invariant.{IsSteady, IsReadable, IsReadable-same}
use connect4codex.Coordinator.Choice.{incumbent, choose_learner-Chosen}
use connect4codex.Coordinator.Steps.{
  conclude-ok, count-ok, teach-ok, announce-ok, reported, told, told_trainer, verdict_report,
}

module _ ⦃fl : Floats⦄ where
  module _ (config : TrainingV2Config) (o : Outside) where
    -- A verdict on a candidate, from one state to the next.
    pub record Settled (row : Attempt) (result : ArenaResult) (c c' : Coordinator) : Type 0 where
      pub steady : IsSteady c'
      pub idle : c'.arena_waiting ≡ false
      pub waits : (c'.awaits_actor ≡ true) × (c'.awaits_trainer ≡ true)
      pub decisions : c'.candidate_decisions ≡ suc c.candidate_decisions
      pub leader : Attempt
      pub leads : champion c'.manifest ≡ ok leader
      pub crowned : champion c'.manifest ≡ (
          if is_accepted result then ok (record row { status = accepted }) else champion c.manifest)
      pub count : ℕ
      pub counts : get_state "accepted_count" c'.manifest ≡ num count
      pub stops : (c'.stop_requested ≡ true) ↔ Stops config o c'.candidate_decisions count
      pub archives : List Attempt
      pub archived : accepted_models config.archive_depth c'.manifest ≡ ok archives
      pub told_actor : c'.actor_commands ≡ c.actor_commands ++ reload leader archives ∷ []
      pub learner : Artifact × Option ℕ
      pub told_learner :
          c'.trainer_commands
          ≡ c.trainer_commands ++ told row (is_accepted result) leader learner c' ∷ []
      pub old_number : Option ℕ
      pub old_score : Option fl.F
      pub read_number :
          stored_attempt (get_state "learner_incumbent_attempt" c.manifest) ≡ ok old_number
      pub read_score : stored_score (get_state "learner_incumbent_score" c.manifest) ≡ ok old_score
      pub learns :
          LearnsFrom o.is_file c'.manifest.attempts old_number old_score
            config.learner_incumbent_min_score result.score
            (is_accepted result)
            row
            leader
            learner
            (incumbent c.manifest)
            (incumbent c'.manifest)
      pub removed : List Artifact
      pub pruned : c'.deleted ≡ c.deleted ++ removed
      pub stale : AreStale config.rejected_weight_retention learner.1 c'.manifest removed

    incumbent-same :
        (m m' : Manifest)
        → get_state "learner_incumbent_attempt" m ≡ get_state "learner_incumbent_attempt" m'
        → get_state "learner_incumbent_score" m ≡ get_state "learner_incumbent_score" m'
        → incumbent m ≡ incumbent m'
    incumbent-same m m' e f = rw (e, f) refl

    cast_both :
        (P : List Attempt → Value × Value → Type 0) (rows rows' : List Attempt)
        (before before' : Value × Value)
        → rows ≡ rows'
        → before ≡ before'
        → P rows before
        → P rows' before'
    cast_both P rows rows' before before' e f l =
        subst (λ x. P rows' x) f (subst (λ x. P x before) e l)

    conclude-Settled :
        (row : Attempt) (r : ArenaResult) (c : Coordinator)
        → Inv c.manifest
        → IsReadable c.manifest
        → c.arena_waiting ≡ false
        → pending_attempt c.manifest ≡ some row
        → (c' : Coordinator) × ((conclude config o row r c ≡ (ok tt, c')) × Settled row r c c')
    unfolding finish
    conclude-Settled row r c v readable idle p =
        let accept = is_accepted r in
        let (done, v1, none_left, crowned, counted) = decide_attempt-Inv c.manifest row r v p in
        let m1 = (decide_attempt row.attempt_n r c.manifest).1 in
        let count = if accept then v.tally + 1 else v.tally in
        let c2 = record c { manifest = m1; candidate_decisions = suc c.candidate_decisions } in
        let c3 = reported config o row r count c2 in
        let k2 = set_state-Kept "arena_progress" (verdict_report row r) m1 refl refl in
        let leads2 = Kept-champion m1 c3.manifest k2 v1 ∙ champion-Inv m1 v1 in
        let other = λ (j : String). get_state-other "arena_progress" j (verdict_report row r) m1 in
        let same_number =
          other "learner_incumbent_attempt" refl
          ∙ get_state-decide_attempt "learner_incumbent_attempt" row.attempt_n v.tally r c.manifest
              v.counted refl refl in
        let same_score =
          other "learner_incumbent_score" refl
          ∙ get_state-decide_attempt "learner_incumbent_score" row.attempt_n v.tally r c.manifest
              v.counted refl refl in
        let readable2 = IsReadable-same c.manifest c3.manifest same_number same_score readable in
        let (learner, (m, (chosen, choice, learns))) =
          choose_learner-Chosen config o accept r.score row v1.leader_row c3 readable2 in
        let k = Kept-trans m1 c3.manifest m k2 choice.same in
        let leads = Kept-champion m1 m k v1 ∙ champion-Inv m1 v1 in
        let c4 = record c3 { manifest = m } in
        let leader = v1.leader_row in
        let archives = past_champions config.archive_depth leader m.attempts in
        let c5 = told_trainer (told row accept leader learner c4) c4 in
        let ends =
          conclude-ok config o row r accept c done
          ∙ count-ok config o row r accept count (record c { manifest = m1 })
              (ap (λ x. state_number 0 x) counted ∙ number_of count)
          ∙ teach-ok config o row r accept count c2 leader learner m leads2 chosen
          ∙ announce-ok config o row accept leader learner c4 leads in
        let kept_count =
          state_at m "accepted_count" (k.count_same ∙ v1.counted)
          ∙ sym (state_at m1 "accepted_count" v1.counted)
          ∙ counted in
        (
          (finish config o learner leader archives c5).1,
          (
            ends,
            record {
              steady = record {
                manifest_inv = Kept-Inv m1 m k v1;
                arena_matches = idle ∙ sym (ap is_some (Kept-pending m1 m k ∙ none_left));
                readable = choice.readable;
              };
              idle = idle;
              waits = (refl, refl);
              decisions = refl;
              leader = leader;
              leads = leads;
              crowned = Kept-champion m1 m k v1 ∙ crowned;
              count = count;
              counts = kept_count;
              stops = stop_after-Stops config o (suc c.candidate_decisions) count;
              archives = archives;
              archived = accepted_models-ok config.archive_depth leader m leads;
              told_actor = refl;
              learner = learner;
              told_learner = refl;
              old_number = readable2.number;
              old_score = readable2.score;
              read_number = ap stored_attempt (sym same_number) ∙ readable2.reads_number;
              read_score = ap stored_score (sym same_score) ∙ readable2.reads_score;
              learns =
                  cast_both
                    (λ rows before.
                      LearnsFrom o.is_file rows readable2.number readable2.score
                        config.learner_incumbent_min_score r.score accept row leader learner before
                        (incumbent m))
                    c3.manifest.attempts m.attempts (incumbent c3.manifest) (incumbent c.manifest)
                    (sym choice.same.attempts_same)
                    (incumbent-same c3.manifest c.manifest same_number same_score) learns;
              removed = prune_rejected config.rejected_weight_retention learner.1 m;
              pruned = refl;
              stale =
                  prune_rejected-AreStale config.rejected_weight_retention learner.1 m
                    (Kept-Inv m1 m k v1).rising;
            },
          ),
        )

    own_number :
        (row : Attempt) (r : ArenaResult) (c : Coordinator)
        → match_pending config o row.attempt_n r (some row) c ≡ conclude config o row r c
    unfolding match_pending
    own_number row r c = let e : (row.attempt_n == row.attempt_n) ≡ true = ground arith in rw e refl

    -- With the invariant, and no override, the result for the candidate that waits is handled without an
    -- error. Afterwards the invariant holds and no arena is awaited, both children are to confirm, one more
    -- decision is counted, and the run stops exactly if the caller says so, or as many candidates were
    -- accepted or decided as a limit of the configuration. The champion is the candidate if the arena
    -- accepted it and else the one before; the actor is told to reload that champion with its archive,
    -- and the trainer the decision with the count and the path of the learner's weights. These are the
    -- champion's after an acceptance. After a rejection they are the candidate's, which is stored as the
    -- incumbent with its score, if it scored the least score and there was no incumbent's score, or one
    -- below the least score or the candidate's, or no weights of the incumbent; else those of the
    -- incumbent, if it has the least score and its weights; and else the champion's, where no incumbent is
    -- stored. The weights that are deleted are those of the rejected attempts, other than the
    -- incumbent, that at least as many rejected ones of a higher number follow as are to be retained.
    pub on_arena-Settled :
        (row : Attempt) (r : ArenaResult) (c : Coordinator)
        → IsSteady c
        → pending_attempt c.manifest ≡ some row
        → o.override ≡ none
        → (c' : Coordinator) × ((on_arena config o row.attempt_n r c ≡ (ok tt, c'))
            × Settled row r c c')
    unfolding on_arena with_result
    on_arena-Settled row r c s p plain =
        let d = record c { actor_busy = false; arena_waiting = false } in
        let (c', (e, settled)) = conclude-Settled row r d s.manifest_inv s.readable refl p in
        (
          c',
          (
            ap (λ x. with_result config o row.attempt_n (overruled x r) d) plain
                ∙ ap (λ x. match_pending config o row.attempt_n r x d) p
                ∙ own_number row r d
                ∙ e,
            record {
              steady = settled.steady;
              idle = settled.idle;
              waits = settled.waits;
              decisions = settled.decisions;
              leader = settled.leader;
              leads = settled.leads;
              crowned = settled.crowned;
              count = settled.count;
              counts = settled.counts;
              stops = settled.stops;
              archives = settled.archives;
              archived = settled.archived;
              told_actor = settled.told_actor;
              learner = settled.learner;
              told_learner = settled.told_learner;
              old_number = settled.old_number;
              old_score = settled.old_score;
              read_number = settled.read_number;
              read_score = settled.read_score;
              learns = settled.learns;
              removed = settled.removed;
              pruned = settled.pruned;
              stale = settled.stale;
            },
          ),
        )
