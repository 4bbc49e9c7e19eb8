-- ===== src/Kube/Pods.antt =====
-- internal/k8s/client.go: `CreateTenantPod`, `WaitPodReady`, `DeletePod` and `PodExists`.
pub mod Ready
use agentic_tenancy.Base.{
  ℕ, ◌*◌, ◌^◌, String, ◌<>◌, Bool, true, false, not, ◌&&◌, Option, none, some, List, [], ◌∷◌, Error,
  Result, ok, err, wrap, Action, pure, ◌>>=◌, ◌==◌, string_eq, if◌then◌else◌,
}
use agentic_tenancy.Base.Int64.{Int64}
use agentic_tenancy.Kube.Objects.{
  KubeClient, Pod, PodPhase, PodSpec, unset, pod_running, pod_name, empty_dir, claim,
  default_priority_norm, zero_claw_requests, zero_claw_limits, kata_selector, kata_tolerations,
}

abbrev pub is_running : PodPhase → Bool
is_running pod_running = true
is_running _ = false

-- `Phase == PodRunning && PodIP != ""`
abbrev pub is_ready : Pod → Bool
is_ready p = is_running p.phase && not (p.pod_ip == "")

abbrev pub second : ℕ
second = 10 ^ 9

abbrev pub poll_interval : ℕ
poll_interval = 2 * second

module _ {W : Type 0} (c : KubeClient W) where
  open c.cs use {
    create_pod, get_pod, delete_pod as api_delete_pod, is_already_exists, is_not_found, poll_until,
    show_duration,
  }

  abbrev pub tenant_pod : String → String → String → String → String → Pod
  tenant_pod tenant_id namespace pvc_name bot_token node_name = record {
    name = pod_name tenant_id;
    namespace = namespace;
    labels = ("app", "zeroclaw") ∷ ("tenant", tenant_id) ∷ [];
    spec = record {
      runtime_class_name = c.cfg.kata_runtime_class;
      priority_class_name = default_priority_norm;
      service_account_name = "zeroclaw-tenant";
      node_name = node_name;
      node_selector = kata_selector;
      tolerations = kata_tolerations;
      containers =
          record {
            name = "zeroclaw";
            image = c.cfg.zero_claw_image;
            env =
                record { name = "TENANT_ID"; value = tenant_id }
                ∷ record { name = "TELEGRAM_BOT_TOKEN"; value = bot_token }
                ∷ [];
            requests = zero_claw_requests;
            limits = zero_claw_limits;
            volume_mounts =
                record { name = "local-state"; mount_path = "/zeroclaw-data" }
                ∷ record { name = "s3-state"; mount_path = "/s3-state" }
                ∷ [];
          }
          ∷ [];
      volumes =
          record { name = "local-state"; source = empty_dir }
          ∷ record { name = "s3-state"; source = claim pvc_name }
          ∷ [];
      grace_period_s = 30;
    };
    phase = unset;
    pod_ip = "";
    deleting = false;
  }

  unfoldable pub create_tenant_pod :
      String → String → String → String → String → Action W (Result Pod)
  create_tenant_pod tenant_id namespace pvc_name bot_token node_name =
      create_pod namespace (tenant_pod tenant_id namespace pvc_name bot_token node_name)
      >>= λ created. elim created [
        | ok pod ↦ pure (ok pod)
        | err e ↦
            if is_already_exists e then get_pod namespace (pod_name tenant_id) else pure (err e)
      ]

  -- The condition of the poll in `WaitPodReady`: the IP of the pod, once it is ready.
  abbrev pub ready_ip : Result Pod → Option String
  ready_ip (err e) = none
  ready_ip (ok pod) = if is_ready pod then some pod.pod_ip else none

  abbrev pub poll_pod : String → String → Action W (Option String)
  poll_pod namespace name = get_pod namespace name >>= λ found. pure (ready_ip found)

  abbrev pub not_ready : String → ℕ → Error → Error
  not_ready name timeout = wrap ("pod " <> name <> " not ready after " <> show_duration timeout)

  unfoldable pub wait_pod_ready : String → String → ℕ → Action W (Result String)
  wait_pod_ready tenant_id namespace timeout =
      poll_until poll_interval timeout (poll_pod namespace (pod_name tenant_id)) >>= λ polled.
      elim polled [
        | ok pod_ip ↦ pure (ok pod_ip)
        | err e ↦ pure (err (not_ready (pod_name tenant_id) timeout e))
      ]

  unfoldable pub delete_pod : String → String → Int64 → Action W (Result (Unit {0}))
  delete_pod name namespace grace_period = api_delete_pod namespace name grace_period >>= λ deleted.
      elim deleted [ ok tt ↦ pure (ok tt) | err e ↦ pure (if is_not_found e then ok tt else err e) ]

  unfoldable pub pod_exists : String → String → Action W (Result Bool)
  pod_exists name namespace = get_pod namespace name >>= λ found. elim found [
    | ok pod ↦ pure (ok true)
    | err e ↦ pure (if is_not_found e then ok false else err e)
  ]
