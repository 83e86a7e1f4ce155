-- ===== src/Operator/Jobs/Asked.antt =====
-- The jobs send nothing but requests.
use nativestor.Prelude.{
  String, refl, Bool, true, false, not, ◌&&◌, ltb, List, [], ◌∷◌, ◌++◌, zero, suc, ℕ, Option, none,
  some, if◌then◌else◌,
}
use nativestor.Errors.{Result, ok, err, ErrorTests}
use nativestor.Api.{pure, fail, attempt, ignore, request, ◌>>=◌}
use nativestor.K8s.Client.{fails_with}
use nativestor.K8s.Job.{
  Job, or_undetected, wait_for_job_completion, await_removal, job_removed, delete_batch_job,
  replace_job, run_replaceable_job,
}
use nativestor.Operator.Types.{Cluster}
use nativestor.Operator.Requests.{
  Event, Server, Control, send, job_client, get_job, create_job, delete_job, server_version,
  list_nodes,
}
use nativestor.Operator.Requests.Trace.{
  IsTrace, Respects, request-Respects, if-Respects, >>=-Respects, >>-Respects, send-Respects,
}
use nativestor.Operator.Jobs.{
  Setting, make_job, run_job, or_job_error, make_and_run_job, run_each, class_nodes, all_nodes,
  add_job, or_nil, clean_each, wait_each, and_wait, start_clean_up_jobs,
}

-- wait.Poll does nothing but run its condition.
abbrev pub IsPoll : (Control Bool → Control (Unit {0})) → Type 1
IsPoll poll =
    (R : List Event → List Event → Type 0) (t : IsTrace R) (test : Control Bool)
    → Respects t test
    → Respects t (poll test)

module _ {R : List Event → List Event → Type 0} (t : IsTrace R) (server : Server)
    (tests : ErrorTests) (setting : Setting) (polls : IsPoll setting.poll) where
  get-Respects : (name : String) → Respects t ((job_client server).get name)
  get-Respects name = request-Respects t (get_job name) (λ log. server.job log name) refl

  create-Respects : (job : Job) → Respects t ((job_client server).create job >>= λ created. pure tt)
  create-Respects job =
      >>=-Respects t ((job_client server).create job) (λ created. pure tt)
        (>>=-Respects t (send server (create_job job)) (λ done. pure job)
          (send-Respects t server (create_job job) refl) (λ done. t.stay))
        (λ created. t.stay)

  wait-Respects :
      (job : Job) → Respects t (wait_for_job_completion tests (job_client server) setting.poll job)
  unfolding wait_for_job_completion
  wait-Respects job =
      polls R t
        (attempt ((job_client server).get job.name)
          >>= or_undetected tests (job_client server) setting.poll)
        (>>=-Respects t (attempt ((job_client server).get job.name))
          (or_undetected tests (job_client server) setting.poll) (get-Respects job.name) by_answer)
    where
      by_answer :
          (r : Result Job) → Respects t (or_undetected tests (job_client server) setting.poll r)
      by_answer (err e) = t.stay
      by_answer (ok found) =
          if-Respects t (ltb 0 found.active) (pure false)
            (if ltb 0 found.failed then fail _ else pure (ltb 0 found.succeeded)) t.stay
            (if-Respects t (ltb 0 found.failed) (fail _) (pure (ltb 0 found.succeeded)) t.stay
              t.stay)

  await_removal-Respects :
      (name : String) (retries : ℕ)
      → Respects t (await_removal tests (job_client server) setting.poll name retries)
  unfolding await_removal
  await_removal-Respects name zero = t.stay
  await_removal-Respects name (suc retries) =
      >>=-Respects t (attempt ((job_client server).get name))
        (λ r.
          if fails_with tests.is_not_found r
          then pure tt
          else await_removal tests (job_client server) setting.poll name retries)
        (get-Respects name)
        (λ r.
          if-Respects t (fails_with tests.is_not_found r) (pure tt)
            (await_removal tests (job_client server) setting.poll name retries) t.stay
            (await_removal-Respects name retries))

  delete-Respects :
      (name : String)
      → Respects t (delete_batch_job tests (job_client server) setting.poll name true)
  unfolding delete_batch_job
  delete-Respects name =
      >>=-Respects t (attempt ((job_client server).delete name))
        (job_removed tests (job_client server) setting.poll name true)
        (send-Respects t server (delete_job name) refl) by_answer
    where
      by_answer :
          (r : Result (Unit {0}))
          → Respects t (job_removed tests (job_client server) setting.poll name true r)
      by_answer (ok done) = await_removal-Respects name 20
      by_answer (err e) = if-Respects t (tests.is_not_found e) (pure tt) (fail _) t.stay t.stay

  run-Respects :
      (job : Job) (delete_if_found : Bool)
      → Respects t (run_replaceable_job tests (job_client server) setting.poll job delete_if_found)
  unfolding run_replaceable_job
  run-Respects job delete_if_found =
      >>=-Respects t (attempt ((job_client server).get job.name))
        (replace_job tests (job_client server) setting.poll job delete_if_found)
        (get-Respects job.name) by_answer
    where
      waited : Job → Control (Unit {0})
      waited existing = wait_for_job_completion tests (job_client server) setting.poll existing

      deleted : Job → Control (Unit {0})
      deleted existing = delete_batch_job tests (job_client server) setting.poll existing.name true

      created : Control (Unit {0})
      created = (job_client server).create job >>= λ c. pure tt

      by_answer :
          (r : Result Job)
          → Respects t (replace_job tests (job_client server) setting.poll job delete_if_found r)
      by_answer (err e) = create-Respects job
      by_answer (ok existing) =
          if-Respects t (ltb 0 existing.active && not delete_if_found) (pure tt)
            (ignore (waited existing) >>= λ w. ignore (deleted existing) >>= λ d. created) t.stay
            (>>=-Respects t (ignore (waited existing))
              (λ w. ignore (deleted existing) >>= λ d. created) (wait-Respects existing)
              (λ w.
                >>=-Respects t (ignore (deleted existing)) (λ d. created)
                  (delete-Respects existing.name) (λ d. create-Respects job)))

  make_job-Respects :
      (prefix command node : String)
      → Respects t (make_job server tests setting prefix command node)
  make_job-Respects prefix command node =
      >>=-Respects t (request server_version server.version) (λ v. pure _)
        (request-Respects t server_version server.version refl) (λ v. t.stay)

  pub make_and_run_job-Respects :
      (node : String) → Respects t (make_and_run_job server tests setting node)
  unfolding make_and_run_job
  make_and_run_job-Respects node =
      >>=-Respects t (make_job server tests setting "topolvm-prepare-vg-" "prepareVg" node)
        (λ job.
          attempt (run_job server tests setting job false) >>= or_job_error server tests setting)
        (make_job-Respects "topolvm-prepare-vg-" "prepareVg" node)
        (λ job.
          >>=-Respects t (attempt (run_job server tests setting job false))
            (or_job_error server tests setting) (run-Respects job false) by_answer)
    where
      by_answer : (r : Result (Unit {0})) → Respects t (or_job_error server tests setting r)
      by_answer (ok done) = t.stay
      by_answer (err e) = t.stay

  pub run_each-Respects : (nodes : List String) → Respects t (run_each server tests setting nodes)
  unfolding run_each
  run_each-Respects [] = t.stay
  run_each-Respects (node ∷ nodes) =
      >>-Respects t (ignore (make_and_run_job server tests setting node))
        (run_each server tests setting nodes) (make_and_run_job-Respects node)
        (run_each-Respects nodes)

  clean_each-Respects :
      (nodes : List String) (jobs : List Job)
      → Respects t (clean_each server tests setting nodes jobs)
  unfolding clean_each
  clean_each-Respects [] jobs = t.stay
  clean_each-Respects (node ∷ nodes) jobs =
      >>=-Respects t (attempt (make_job server tests setting "topolvm-clean-" "clean" node))
        (λ made. or_nil server tests setting jobs made (clean_each server tests setting nodes))
        (make_job-Respects "topolvm-clean-" "clean" node)
        (λ made. by_answer made (clean_each-Respects nodes))
    where
      by_answer :
          (r : Result Job)
          → ((js : List Job) → Respects t (clean_each server tests setting nodes js))
          → Respects t (or_nil server tests setting jobs r (clean_each server tests setting nodes))
      by_answer (err e) later = t.stay
      by_answer (ok job) later =
          >>=-Respects t (attempt (run_job server tests setting job true))
            (λ ran.
              clean_each server tests setting nodes (add_job server tests setting ran job jobs))
            (run-Respects job true) (λ ran. later (add_job server tests setting ran job jobs))

  wait_each-Respects : (jobs : List Job) → Respects t (wait_each server tests setting jobs)
  unfolding wait_each
  wait_each-Respects [] = t.stay
  wait_each-Respects (job ∷ jobs) =
      >>-Respects t (ignore (wait_for_job_completion tests (job_client server) setting.poll job))
        (wait_each server tests setting jobs) (wait-Respects job) (wait_each-Respects jobs)

  pub all_nodes-Respects : (b : Bool) → Respects t (all_nodes server tests setting b)
  all_nodes-Respects true = request-Respects t list_nodes server.nodes refl
  all_nodes-Respects false = t.stay

  pub start_clean_up_jobs-Respects :
      (cluster : Cluster) → Respects t (start_clean_up_jobs server tests setting cluster)
  unfolding start_clean_up_jobs
  start_clean_up_jobs-Respects cluster =
      >>=-Respects t (all_nodes server tests setting cluster.spec.use_all_nodes)
        (λ nodes. clean nodes >>= and_wait server tests setting)
        (all_nodes-Respects cluster.spec.use_all_nodes)
        (λ nodes.
          >>=-Respects t (clean nodes) (and_wait server tests setting)
            (clean_each-Respects (nodes ++ class_nodes cluster.spec.storage.device_classes) [])
            by_jobs)
    where
      clean : List String → Control (Option (List Job))
      clean nodes =
          clean_each server tests setting (nodes ++ class_nodes cluster.spec.storage.device_classes)
            []

      by_jobs : (o : Option (List Job)) → Respects t (and_wait server tests setting o)
      by_jobs none = t.stay
      by_jobs (some jobs) =
          >>-Respects t (wait_each server tests setting jobs) (pure (some tt))
            (wait_each-Respects jobs) t.stay
