-- ===== src/Source/Tests.antt =====
-- Tests of the model of crates/semantic-engine-source, and its theorems at concrete inputs.
use semantic_engine.Common.{
  Text, text_of, none, some, [], ◌∷◌, ◌≡◌, ◌≢◌, refl, arith, Text-discrete, ℕ_discrete,
}
use semantic_engine.Common.Fields.{write_fields}
use semantic_engine.Common.Results.{ok, err}
use semantic_engine.Source.Types.{
  Row, CreateSource, SourceDesiredState, UpdateSource, active, missing, must_be_paused, invalid,
  Tables, into_submission,
}
use semantic_engine.Source.Checks.{validate_settings, validate_create}
use semantic_engine.Source.Store.{
  Env, find_row, find_checkpoint, add, update, set_desired_state, remove, save_checkpoint,
  load_checkpoint, get, list,
}
use semantic_engine.Source.Concurrency.{
  IsAccepted, IsUp, update-outcome, revision_once, IsRefused, update_outcome,
}
use semantic_engine.Source.Invariant.{IsSound, here, next, adds, updates, Reach-IsSound}
use semantic_engine.Source.RoundTrip.{save_checkpoint-load_checkpoint, remove-forgets}
use semantic_engine.Source.Samples.{
  sample, sample-RoundTrips, at, create, twitch_main, revise_to, empty, one_source, fields_of,
  channel,
}

program : Unit {0}
unfolding add update set_desired_state remove save_checkpoint load_checkpoint list Text-discrete
    ℕ_discrete into_submission validate_settings validate_create
program = tt

adds_one : (add sample (at 5) empty (create twitch_main)).0 ≡ one_source
unfolding program
adds_one = refl

refuses_secrets :
    validate_settings ((text_of "ACCESS_TOKEN", text_of "x") ∷ [])
    ≡ err (invalid (text_of "secrets must use credential_id instead of source settings"))
unfolding program
refuses_secrets = refl

starts_paused_only :
    remove sample
      (at 7)
      (set_desired_state sample (at 6) one_source twitch_main 1 active).0
      twitch_main
      2
    ≡ err must_be_paused
unfolding program
starts_paused_only = refl

revise_to-IsAccepted :
    IsAccepted sample twitch_main (revise_to 1) (write_fields (fields_of channel))
unfolding program
revise_to-IsAccepted = record {
  identifier = refl;
  display_name = refl;
  settings = refl;
  credential_id = refl;
  positive = refl;
  expected = refl;
  encodes = refl;
}

at-IsUp : IsUp (at 9) 9
at-IsUp = record { answers = λ k. refl; clock = refl; holds_now = refl }

update-outcome_example :
    update sample (at 9) one_source twitch_main (revise_to 1)
    ≡ update_outcome
        (revise_to 1)
        twitch_main
        (write_fields (fields_of channel))
        9
        one_source
        (find_row twitch_main one_source.sources)
unfolding program
update-outcome_example =
    update-outcome sample sample-RoundTrips (at 9) one_source twitch_main (revise_to 1)
      (write_fields (fields_of channel)) 9 (refl, tt) revise_to-IsAccepted at-IsUp

revision_once_example :
    (((next : Row) × (find_row twitch_main
            (update sample (at 9) one_source twitch_main (revise_to 1)).0.sources
          ≡ some next)
        × (next.revision ≡ 2))
      × ((again : UpdateSource)
          → again.expected_revision ≡ 1
          → IsRefused (update sample (at 9) one_source twitch_main (revise_to 1)).0 (
              update sample
                (at 11)
                (update sample (at 9) one_source twitch_main (revise_to 1)).0
                twitch_main
                again))
      × ((state : SourceDesiredState)
          → IsRefused (update sample (at 9) one_source twitch_main (revise_to 1)).0 (
              set_desired_state sample
                (at 11)
                (update sample (at 9) one_source twitch_main (revise_to 1)).0
                twitch_main
                1
                state))
      × ((w : Tables)
          → remove sample
              (at 11)
              (update sample (at 9) one_source twitch_main (revise_to 1)).0
              twitch_main
              1
            ≢ ok w))
unfolding program
revision_once_example =
    revision_once sample (at 9) (at 11) one_source
      (update sample (at 9) one_source twitch_main (revise_to 1)).0 twitch_main (revise_to 1)
      {u = (update sample (at 9) one_source twitch_main (revise_to 1)).0} (refl, tt) refl (refl, tt)
      refl (omega arith)

empty-IsSound : IsSound sample empty
empty-IsSound = record { keyed = tt; bounded = omega arith; revised = tt; checked = tt }

Reach-IsSound_example :
    IsSound sample
      (update sample
        (at 9)
        (add sample (at 5) empty (create twitch_main)).0
        twitch_main
        (revise_to 1)).0
Reach-IsSound_example = Reach-IsSound sample empty-IsSound (
    next (next here (adds (at 5) empty (create twitch_main)))
      (updates (at 9) (add sample (at 5) empty (create twitch_main)).0 twitch_main (revise_to 1)))

-- The tables after a checkpoint of the source was saved
abbrev checkpointed : Tables
checkpointed = record one_source {
  checkpoints =
      record { source_id = twitch_main; cursor = text_of "page-2"; updated_at_ms = 8 } ∷ [];
}

save_checkpoint-load_checkpoint_example :
    ((load_checkpoint sample (at 9) checkpointed twitch_main ≡ ok (some (text_of "page-2")))
      × ((other : Text)
          → other ≢ twitch_main
          → load_checkpoint sample (at 9) checkpointed other
            ≡ load_checkpoint sample (at 9) one_source other))
unfolding program
save_checkpoint-load_checkpoint_example =
    save_checkpoint-load_checkpoint sample (at 8) (at 9) one_source twitch_main (text_of "page-2")
      {w = checkpointed} refl refl refl

remove-forgets_example :
    ((get sample none empty twitch_main ≡ err missing)
      × (find_checkpoint twitch_main [] ≡ none)
      × ((again : Env) (request : CreateSource)
          → find_checkpoint twitch_main (add sample again empty request).0.checkpoints ≡ none)
      × ((other : Text)
          → other ≢ twitch_main
          → (find_row other [] ≡ find_row other checkpointed.sources)
            × (find_checkpoint other [] ≡ find_checkpoint other checkpointed.checkpoints)))
unfolding program
remove-forgets_example =
    remove-forgets sample (at 9) checkpointed twitch_main 1 {w = empty} (refl, tt) refl
