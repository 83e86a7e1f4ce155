-- ===== src/Operator/Jobs.antt =====
-- The jobs that the operator runs on the nodes: MakeAndRunJob of pkg/operator/topolvm/volumegroup/
-- vgmanager.go, and startCleanUpJobs of pkg/operator/topolvm/controller/cleanup.go. Of the pod template
-- the model has the node, the image and the command. The owner reference of a clean-up job is left out.
pub mod Asked
use Prim.Native.String.{[], ◌∷◌}
use Prim.Native.Char.{code}
use nativestor.Prelude.{
  ℕ, String, ◌&&◌, Bool, true, false, List, Option, none, some, ltb, map, ◌++◌, if◌then◌else◌,
}
use nativestor.Prelude.Texts.{concat}
use nativestor.Errors.{Error, Result, ok, err, plain, ErrorTests}
use nativestor.Api.{Api, pure, fail, attempt, ignore, request, ◌>>=◌, ◌>>◌}
use nativestor.K8s.Job.{Job, run_replaceable_job, wait_for_job_completion}
use nativestor.VolumeGroup.Types.{NodeDevices}
use nativestor.Operator.Types.{Cluster}
use nativestor.Operator.Requests.{
  Event, Server, Node, Control, job_client, server_version, list_nodes,
}

-- `s >= t` of Go, on texts
unfoldable pub at_least : String → String → Bool
at_least s [] = true
at_least [] (d ∷ t) = false
at_least (c ∷ s) (d ∷ t) =
    let rest = at_least s t in
    if ltb (code d) (code c) then true else (if ltb (code c) (code d) then false else rest)

-- whether the server is taken to have indexed jobs
unfoldable pub is_indexed : String × String → Bool
unfolding at_least
is_indexed (major, minor) = at_least major "1" && at_least minor "22"

-- The job of either makeJob.
unfoldable pub job_for : String → String → String → String → String × String → Job
unfolding is_indexed
job_for name node image command version = record {
  name = name;
  node = node;
  image = image;
  command = List.◌∷◌ "/topolvm" (List.◌∷◌ command List.[]);
  indexed = is_indexed version;
  active = 0;
  failed = 0;
  succeeded = 0;
}

-- k8sutil.Hash, the image of the operator, and wait.Poll
pub record Setting : Type 0 where
  pub hash : String → String
  pub image : String
  pub poll : Control Bool → Control (Unit {0})

abbrev pub names : Result (List Node) → List String
names (ok nodes) = map (λ (n : Node). n.name) nodes
names (err e) = List.[]

abbrev pub class_nodes : Option (List NodeDevices) → List String
class_nodes none = List.[]
class_nodes (some classes) = map (λ (d : NodeDevices). d.node_name) classes

module _ (server : Server) (tests : ErrorTests) (setting : Setting) where
  abbrev pub make_job : String → String → String → Control Job
  make_job prefix command node = do
    version ← request server_version server.version
    pure (job_for (concat prefix (setting.hash node)) node setting.image command version)

  abbrev pub run_job : Job → Bool → Control (Unit {0})
  run_job = run_replaceable_job tests (job_client server) setting.poll

  abbrev pub or_job_error : Result (Unit {0}) → Control (Unit {0})
  or_job_error (ok done) = pure tt
  or_job_error (err e) = fail (plain "run job for node:%s failed")

  unfoldable pub make_and_run_job : String → Control (Unit {0})
  unfolding job_for run_replaceable_job
  make_and_run_job node = do
    job ← make_job "topolvm-prepare-vg-" "prepareVg" node
    ran ← attempt (run_job job false)
    or_job_error ran

  -- one job for each node, whose errors are logged
  unfoldable pub run_each : List String → Control (Unit {0})
  unfolding make_and_run_job
  run_each List.[] = pure tt
  run_each (List.◌∷◌ node nodes) = ignore (make_and_run_job node) >> run_each nodes

  abbrev pub add_job : Result (Unit {0}) → Job → List Job → List Job
  add_job (ok done) job jobs = jobs ++ List.◌∷◌ job List.[]
  add_job (err e) job jobs = jobs

  abbrev pub or_nil :
      List Job → Result Job → (List Job → Control (Option (List Job))) → Control (Option (List Job))
  or_nil jobs (err e) rest = pure none
  or_nil jobs (ok job) rest = attempt (run_job job true) >>= λ ran. rest (add_job ran job jobs)

  -- The clean-up jobs of some nodes; `none` is the panic on a job that could not be made, whose pointer
  -- is nil.
  unfoldable pub clean_each : List String → List Job → Control (Option (List Job))
  unfolding job_for run_replaceable_job
  clean_each List.[] jobs = pure (some jobs)
  clean_each (List.◌∷◌ node nodes) jobs =
      attempt (make_job "topolvm-clean-" "clean" node) >>= λ made.
      or_nil jobs made (clean_each nodes)

  unfoldable pub wait_each : List Job → Control (Unit {0})
  unfolding wait_for_job_completion
  wait_each List.[] = pure tt
  wait_each (List.◌∷◌ job jobs) =
      ignore (wait_for_job_completion tests (job_client server) setting.poll job) >> wait_each jobs

  abbrev pub all_nodes : Bool → Control (List String)
  all_nodes true = attempt (request list_nodes server.nodes) >>= λ nodes. pure (names nodes)
  all_nodes false = pure List.[]

  abbrev pub and_wait : Option (List Job) → Control (Option (Unit {0}))
  and_wait none = pure none
  and_wait (some jobs) = wait_each jobs >> pure (some tt)

  unfoldable pub start_clean_up_jobs : Cluster → Control (Option (Unit {0}))
  unfolding clean_each wait_each
  start_clean_up_jobs cluster = do
    nodes ← all_nodes cluster.spec.use_all_nodes
    jobs ← clean_each (nodes ++ class_nodes cluster.spec.storage.device_classes) List.[]
    and_wait jobs
