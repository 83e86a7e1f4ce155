-- ===== src/K8s/Job/Running.antt =====
-- What RunReplaceableJob does about a job that exists.
use nativestor.Prelude.{◌≡◌, Bool, true, false, List, ◌<◌}
use nativestor.Errors.{Result, ok, err, ErrorTests}
use nativestor.Api.{Api}
use nativestor.K8s.Client.{Client}
use nativestor.K8s.Job.{Job, wait_for_job_completion, delete_batch_job}

module _ {E : Type 0} (tests : ErrorTests) (client : Client E Job)
    (poll : Api E Bool → Api E (Unit {0})) (job : Job) (delete_if_found : Bool) (log : List E) where
  -- the job that was found may run on
  abbrev pub MayContinue : Type 0
  MayContinue =
      (existing : Job) × ((client.get job.name log).0 ≡ ok existing)
      × (0 < existing.active)
      × (delete_if_found ≡ false)

  -- the requests after which the job is created: a job that was found has been waited for and deleted
  abbrev pub cleared : Result Job → List E → List E
  cleared (err e) asked = asked
  cleared (ok existing) asked =
      (delete_batch_job tests client poll existing.name true
        (wait_for_job_completion tests client poll existing asked).1).1
