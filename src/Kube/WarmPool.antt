-- ===== src/Kube/WarmPool.antt =====
-- internal/k8s/client.go: the warm-pool deployment and its pods.
pub mod Claims
pub mod Size
use agentic_tenancy.Base.{
  ℕ, ◌+◌, String, Bool, true, false, not, ◌&&◌, Option, none, some, List, [], ◌∷◌, Error, Result,
  ok, err, panic, Action, pure, ◌>>=◌, if◌then◌else◌, on_ok,
}
use agentic_tenancy.Base.Dict
use agentic_tenancy.Base.Dict.{Dict}
use agentic_tenancy.Kube.Objects.{
  KubeClient, Pod, PodPhase, PodSpec, Container, Deployment, failed, default_priority_low,
  zero_claw_requests, zero_claw_limits, kata_selector, kata_tolerations,
}
use agentic_tenancy.Kube.Pods.{is_running, is_ready}

abbrev pub warm_pool : String
warm_pool = "warm-pool"

abbrev pub warm_labels : Dict String
warm_labels = ("app", "warm-pool") ∷ ("warm", "true") ∷ []

abbrev pub warm_selector : String
warm_selector = "app=warm-pool,warm=true"

-- `Containers[0].Image = image`, which panics where there is no container.
abbrev pub set_image : String → List Container → Option (List Container)
set_image image [] = none
set_image image (first ∷ rest) = some (record first { image = image } ∷ rest)

abbrev is_failed : PodPhase → Bool
is_failed failed = true
is_failed _ = false

-- `CountWarmPods`: not failed, and not being deleted.
abbrev pub is_active : Pod → Bool
is_active p = not (is_failed p.phase) && not p.deleting

abbrev pub count_active : List Pod → ℕ
count_active [] = 0
count_active (p ∷ l) = (if is_active p then 1 else 0) + count_active l

-- The guard of the loop in `GetWarmPod`.
abbrev pub is_claimable : Pod → Bool
is_claimable p = is_ready p && not p.deleting

-- The copy with `warm=consuming`, which the deployment's selector no longer matches.
abbrev pub claimed : Pod → Pod
claimed p = record p { labels = Dict.insert "warm" "consuming" p.labels }

module _ {W : Type 0} (c : KubeClient W) where
  open c.cs use {
    list_pods, update_pod, get_deployment, create_deployment, update_deployment, is_not_found,
  }

  abbrev pub warm_deployment : String → ℕ → Deployment
  warm_deployment namespace replicas = record {
    name = warm_pool;
    namespace = namespace;
    labels = warm_labels;
    replicas = replicas;
    match_labels = ("app", "warm-pool") ∷ ("warm", "true") ∷ [];
    template_labels = warm_labels;
    template_spec = record {
      runtime_class_name = c.cfg.kata_runtime_class;
      priority_class_name = default_priority_low;
      service_account_name = "zeroclaw-tenant";
      node_name = "";
      node_selector = kata_selector;
      tolerations = kata_tolerations;
      containers =
          record {
            name = "zeroclaw";
            image = c.cfg.zero_claw_image;
            env = record { name = "TELEGRAM_BOT_TOKEN"; value = "" } ∷ [];
            requests = zero_claw_requests;
            limits = zero_claw_limits;
            volume_mounts = [];
          }
          ∷ [];
      volumes = [];
      grace_period_s = 10;
    };
  }

  -- The update of a deployment that is there.
  abbrev refresh : String → ℕ → Deployment → Action W (Result (Unit {0}))
  refresh namespace replicas existing =
      elim (set_image c.cfg.zero_claw_image existing.template_spec.containers) [
        | none ↦ pure (err (panic "index out of range"))
        | some containers ↦ update_deployment namespace (record existing {
          replicas = replicas;
          template_spec = record existing.template_spec { containers = containers };
        })
      ]

  unfoldable pub ensure_warm_pool_deployment : String → ℕ → Action W (Result (Unit {0}))
  ensure_warm_pool_deployment namespace replicas = get_deployment namespace warm_pool >>= λ found.
      elim found [
        | ok existing ↦ refresh namespace replicas existing
        | err e ↦
            if is_not_found e
            then create_deployment namespace (warm_deployment namespace replicas)
            else pure (err e)
      ]

  unfoldable pub scale_warm_pool : String → ℕ → Action W (Result (Unit {0}))
  scale_warm_pool namespace replicas =
      get_deployment namespace warm_pool
      >>= on_ok (λ e. e)
          (λ existing. update_deployment namespace (record existing { replicas = replicas }))

  -- The loop of `GetWarmPod`. Where another replica has updated the pod first, the next is tried.
  unfoldable pub claim_first : String → List Pod → Action W (Option Pod)
  claim_first namespace [] = pure none
  claim_first namespace (p ∷ l) = elim (is_claimable p) [
    | false ↦ claim_first namespace l
    | true ↦ update_pod namespace (claimed p) >>= λ updated. elim updated [
      | ok pod ↦ pure (some pod)
      | err _ ↦ claim_first namespace l
    ]
  ]

  unfoldable pub get_warm_pod : String → Action W (Result (Option Pod))
  unfolding claim_first
  get_warm_pod namespace =
      list_pods namespace warm_selector
      >>= on_ok (λ e. e) (λ pods. claim_first namespace pods >>= λ o. pure (ok o))

  unfoldable pub count_warm_pods : String → Action W (Result ℕ)
  count_warm_pods namespace =
      list_pods namespace warm_selector >>= on_ok (λ e. e) (λ pods. pure (ok (count_active pods)))
