-- ===== src/Api/Wake.antt =====
-- internal/api/handler.go: `Wake`, `wakeOrGet` and `pollUntilRunning`.
pub mod Workers
pub mod Frames
pub mod Locking
pub mod Poll
pub mod Outcome
pub mod Failure
pub mod Answer
pub mod Whole
use agentic_tenancy.Base.{
  ℕ, zero, suc, ◌+◌, ◌*◌, ◌/◌, String, ◌<>◌, Bool, true, false, not, ◌&&◌, Option, none, some,
  Error, Result, ok, err, msg, wrap, out_of_fuel, Action, pure, ◌>>=◌, ◌>>◌, on_ok, deferred, ◌==◌,
  string_eq, ltb, if◌then◌else◌,
}
use agentic_tenancy.Registry.{TenantRecord, TenantStatus, running, provisioning, status_eq}
use agentic_tenancy.Kube.Objects.{KubeClient, Pod, pvc_name}
use agentic_tenancy.Kube.Pods.{second, create_tenant_pod, wait_pod_ready, delete_pod}
use agentic_tenancy.Kube.Volumes.{create_pvc}
use agentic_tenancy.Kube.WarmPool.{get_warm_pod}
use agentic_tenancy.Api.{Handler, Response, pod_ip_json, http_error, s3_prefix_of}

-- `rec != nil && rec.Status == StatusRunning && rec.PodIP != ""`: the IP of such a record.
abbrev pub running_ip : Option TenantRecord → Option String
running_ip none = none
running_ip (some rec) =
    if rec.status == running && not (rec.pod_ip == "") then some rec.pod_ip else none

module _ {W : Type 0} (h : Handler W) where
  -- The record that a wake makes for a tenant that has none.
  abbrev pub auto_record : String → ℕ → ℕ → TenantRecord
  auto_record tenant_id created_at last_active_at = record {
    tenant_id = tenant_id;
    status = provisioning;
    pod_name = "";
    pod_ip = "";
    namespace = h.cfg.namespace;
    s3_prefix = s3_prefix_of tenant_id;
    bot_token = "";
    created_at = created_at;
    last_active_at = last_active_at;
    idle_timeout_s = 300;
  }

  -- `if rec == nil { … }`. That the creation fails is ignored.
  unfoldable pub ensure_record : String → Option TenantRecord → Action W TenantRecord
  ensure_record tenant_id (some rec) = pure rec
  ensure_record tenant_id none = do
    created_at ← h.clock.now
    last_active_at ← h.clock.now
    h.reg.create_tenant (auto_record tenant_id created_at last_active_at)
    pure (auto_record tenant_id created_at last_active_at)

  abbrev pub namespace_of : TenantRecord → String
  namespace_of rec = if rec.namespace == "" then h.cfg.namespace else rec.namespace

  -- The node of a warm pod, which is deleted, or the empty text.
  unfoldable pub claim_node : KubeClient W → String → Action W String
  claim_node k8s ns = get_warm_pod k8s ns >>= λ found. elim found [
    | err _ ↦ pure ""
    | ok none ↦ pure ""
    | ok (some pod) ↦ (delete_pod k8s pod.name ns 0 >> pure pod.spec.node_name)
  ]

  -- From the creation of the pod on.
  unfoldable pub start_pod :
      KubeClient W → String → TenantRecord → String → String → Action W (Result String)
  start_pod k8s tenant_id rec ns node_name =
      create_tenant_pod k8s tenant_id ns (pvc_name tenant_id) rec.bot_token node_name
      >>= on_ok (wrap "create pod") λ pod.
        wait_pod_ready k8s tenant_id ns h.cfg.pod_ready_wait
        >>= on_ok (wrap "wait pod ready") λ pod_ip.
          h.reg.update_status tenant_id running pod.name pod_ip
          >>= on_ok (wrap "update status") λ _. pure (ok pod_ip)

  -- What runs under the wake lock.
  unfoldable pub provision : KubeClient W → String → Option TenantRecord → Action W (Result String)
  provision k8s tenant_id found = do
    rec ← ensure_record tenant_id found
    created ← create_pvc k8s tenant_id (namespace_of rec)
    on_ok (wrap "create PVC")
        (λ _. claim_node k8s (namespace_of rec) >>= λ node_name.
          start_pod k8s tenant_id rec (namespace_of rec) node_name)
        created

  abbrev pub poll_interval : ℕ
  poll_interval = 2 * second

  abbrev timed_out : String → Error
  timed_out tenant_id = msg ("timeout waiting for tenant " <> tenant_id <> " to become running")

  -- The loop of `pollUntilRunning`, with fuel.
  unfoldable pub poll_loop : ℕ → ℕ → String → Action W (Result String)
  poll_loop zero deadline tenant_id = pure (err out_of_fuel)
  poll_loop (suc fuel) deadline tenant_id = h.clock.now >>= λ t. elim (ltb t deadline) [
    | false ↦ pure (err (timed_out tenant_id))
    | true ↦ h.clock.pause poll_interval >>= λ paused. elim paused [
      | err e ↦ pure (err e)
      | ok tt ↦ h.reg.get_tenant tenant_id >>= λ found. elim found [
        | err _ ↦ poll_loop fuel deadline tenant_id
        | ok o ↦ elim (running_ip o) [
          | none ↦ poll_loop fuel deadline tenant_id
          | some pod_ip ↦ pure (ok pod_ip)
        ]
      ]
    ]
  ]

  -- Rounds enough for the deadline, where each takes at least the interval.
  abbrev pub poll_rounds : ℕ
  poll_rounds = suc (suc (h.cfg.wake_lock_ttl / poll_interval))

  unfoldable pub poll_until_running : String → Action W (Result String)
  poll_until_running tenant_id =
      h.clock.now >>= λ t. poll_loop poll_rounds (t + h.cfg.wake_lock_ttl) tenant_id

  -- The slow path: under the lock, or waiting for the replica that holds it.
  unfoldable pub wake_slowly :
      KubeClient W → String → Option TenantRecord → Action W (Result String)
  wake_slowly k8s tenant_id found =
      h.lock.acquire_wake_lock tenant_id h.cfg.wake_lock_ttl
      >>= on_ok (wrap "acquire lock") λ acquired. elim acquired [
        | false ↦ poll_until_running tenant_id
        | true ↦ deferred (h.lock.release_wake_lock tenant_id) (provision k8s tenant_id found)
      ]

  unfoldable pub wake_with : KubeClient W → String → Action W (Result String)
  wake_with k8s tenant_id =
      h.reg.get_tenant tenant_id
      >>= on_ok (λ e. e)
          λ found. elim (running_ip found) [
            | some pod_ip ↦ pure (ok pod_ip)
            | none ↦ wake_slowly k8s tenant_id found
          ]

  unfoldable pub wake_or_get : String → Action W (Result String)
  wake_or_get tenant_id = elim h.k8s [
    | none ↦ pure (err (msg "k8s not available in local mode"))
    | some k8s ↦ wake_with k8s tenant_id
  ]

  unfoldable pub wake : String → Action W Response
  wake tenant_id = wake_or_get tenant_id >>= λ woken. elim woken [
    | err _ ↦ pure (http_error 503 "failed to wake tenant")
    | ok pod_ip ↦ pure (record { status = 200; body = pod_ip_json pod_ip })
  ]
