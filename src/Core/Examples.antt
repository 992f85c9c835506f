-- ===== src/Core/Examples.antt =====
-- Runs and instances of the job model.
use qml.Base.{◌≡◌, ◌≢◌, ◌↔◌, refl, pos, [], ◌∷◌, none, List}
use qml.Error.{QmlError, ok, err}
use qml.Core.JobState.{JobState, JobStateKind, can_transition_to}
use qml.Core.Job.{Job, new, set_state}
use qml.Core.Graph.{Edge}
use qml.Core.Transitions.{set_states, set_state_lem}

abbrev fresh_job : Job
fresh_job = record {
  id = "j1";
  method = "send_email";
  payload = "null";
  created_at = pos 5;
  state = JobState.enqueued (pos 5) "default";
  queue = "default";
  priority = pos 0;
  max_retries = 0;
  attempt = 0;
  metadata = [];
  job_type = none;
  timeout_seconds = none;
  expires_at = none;
}

abbrev running : JobState
running = JobState.processing (pos 6) "w" "s"

abbrev done : JobState
done = JobState.succeeded (pos 7) 1 none

new_fresh : new "j1" (pos 5) (pos 5) "send_email" "null" ≡ fresh_job
unfolding new
new_fresh = refl

abbrev life : List JobState
life = running ∷ JobState.scheduled (pos 8) (pos 9) "late" ∷ done ∷ running ∷ []

life_ends : (set_states fresh_job life).state ≡ done
unfolding set_states set_state can_transition_to
life_ends = refl

abbrev done_job : Job
done_job = record fresh_job { state = done }

set_state_lem_example :
    (((set_state done_job running).1 ≡ ok tt) ↔ Edge JobStateKind.succeeded JobStateKind.processing)
    × (((set_state done_job running).1 ≡ ok tt)
        → (set_state done_job running).0 ≡ record done_job { state = running })
    × (((set_state done_job running).1 ≢ ok tt)
        → set_state done_job running
          ≡ (done_job, err (QmlError.invalid_state_transition done running)))
set_state_lem_example = set_state_lem done_job running
