-- ===== src/K8s/Deployment.antt =====
-- deployment.go: CreateDeployment, CreateOrUpdateDeployment and CheckDeploymentIsExisting. The hash
-- annotation (banzaicloud/k8s-objectmatcher) is a parameter.
use nativestor.Prelude.{String, Bool, true, false, [], if◌then◌else◌}
use nativestor.Prelude.Maps.{Map}
use nativestor.Errors.{Result, ok, err, wrapped, ErrorTests}
use nativestor.Api.{Api, pure, fail, of_result, attempt, wrap, ◌>>=◌}
use nativestor.K8s.Client.{Client}

-- of a Deployment, what the operator sets beside its template: the name, the node that its pods are
-- bound to, the config map of its volume, and the parameters of the template
pub record Deployment : Type 0 where
  pub name : String
  pub node : String
  pub config_map : String
  pub parameters : Map String

abbrev pub blank : String → Deployment
blank name = record { name = name; node = ""; config_map = ""; parameters = [] }

module _ {E : Type 0} (tests : ErrorTests) (client : Client E Deployment)
    (annotate : Deployment → Result Deployment) where
  unfoldable pub create_deployment : Deployment → Api E Deployment
  create_deployment dep = do
    annotated ← wrap "failed to set hash annotation on deployment %q" (of_result (annotate dep))
    client.create annotated

  abbrev pub annotated_or : Deployment → Result Deployment → Deployment
  annotated_or dep (ok annotated) = annotated
  annotated_or dep (err e) = dep

  abbrev pub or_update : Deployment → Result Deployment → Api E Deployment
  or_update dep (ok created) = pure created
  or_update dep (err e) = wrap "failed to create or update deployment %q: %+v" (
      if tests.is_already_exists e then client.update (annotated_or dep (annotate dep)) else fail e)

  unfoldable pub create_or_update_deployment : Deployment → Api E Deployment
  unfolding create_deployment
  create_or_update_deployment dep = attempt (create_deployment dep) >>= or_update dep

  abbrev pub or_absent : Result Deployment → Api E Bool
  or_absent (ok found) = pure true
  or_absent (err e) =
      if tests.is_not_found e then pure false else fail (wrapped "failed to detect deployment %s" e)

  unfoldable pub check_deployment_is_existing : String → Api E Bool
  check_deployment_is_existing name = attempt (client.get name) >>= or_absent
