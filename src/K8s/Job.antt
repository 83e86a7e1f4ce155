-- ===== src/K8s/Job.antt =====
-- job.go. wait.Poll of k8s.io/apimachinery is a parameter: the times at which it looks are its own.
pub mod Running
use nativestor.Prelude.{
  ℕ, zero, suc, String, ◌≡◌, ◌&&◌, not, Bool, true, false, List, ltb, if◌then◌else◌,
}
use nativestor.Errors.{Error, Result, ok, err, plain, ErrorTests}
use nativestor.Api.{Api, pure, fail, attempt, ignore, ◌>>=◌, ◌>>◌}
use nativestor.K8s.Client.{Client, fails_with}

-- of a batch/v1 Job, what the program sets and reads: the node that it is bound to, the image and the
-- command, whether it is an indexed job, and the counts of its status
pub record Job : Type 0 where
  pub name : String
  pub node : String
  pub image : String
  pub command : List String
  pub indexed : Bool
  pub active : ℕ
  pub failed : ℕ
  pub succeeded : ℕ

module _ {E : Type 0} (tests : ErrorTests) (client : Client E Job)
    (poll : Api E Bool → Api E (Unit {0})) where
  abbrev pub is_complete : Job → Api E Bool
  is_complete job =
      if ltb 0 job.active
      then pure false
      else (if ltb 0 job.failed then fail (plain "job %s failed") else pure (ltb 0 job.succeeded))

  abbrev pub or_undetected : Result Job → Api E Bool
  or_undetected (ok job) = is_complete job
  or_undetected (err e) = fail (plain "failed to detect job %s. %+v")

  -- WaitForJobCompletion
  unfoldable pub wait_for_job_completion : Job → Api E (Unit {0})
  wait_for_job_completion job = poll (attempt (client.get job.name) >>= or_undetected)

  -- the loop of DeleteBatchJob, which gives up without an error
  unfoldable pub await_removal : String → ℕ → Api E (Unit {0})
  await_removal name zero = pure tt
  await_removal name (suc retries) =
      let rest = await_removal name retries in
      attempt (client.get name) >>= λ answer.
      if fails_with tests.is_not_found answer then pure tt else rest

  abbrev pub job_removed : String → Bool → Result (Unit {0}) → Api E (Unit {0})
  job_removed name wait (ok done) = if wait then await_removal name 20 else pure tt
  job_removed name wait (err e) =
      if tests.is_not_found e
      then pure tt
      else fail (plain "failed to remove previous provisioning job for node %s. %+v")

  unfoldable pub delete_batch_job : String → Bool → Api E (Unit {0})
  unfolding await_removal
  delete_batch_job name wait = attempt (client.delete name) >>= job_removed name wait

  abbrev create_job : Job → Api E (Unit {0})
  create_job job = client.create job >>= λ created. pure tt

  abbrev pub replace_job : Job → Bool → Result Job → Api E (Unit {0})
  replace_job job delete_if_found (err e) = create_job job
  replace_job job delete_if_found (ok existing) =
      if ltb 0 existing.active && not delete_if_found then pure tt else (do
        ignore (wait_for_job_completion existing)
        ignore (delete_batch_job existing.name true)
        create_job job)

  unfoldable pub run_replaceable_job : Job → Bool → Api E (Unit {0})
  unfolding wait_for_job_completion delete_batch_job
  run_replaceable_job job delete_if_found =
      attempt (client.get job.name) >>= replace_job job delete_if_found
