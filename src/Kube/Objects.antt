-- ===== src/Kube/Objects.antt =====
-- internal/k8s/client.go: the Kubernetes objects that the client builds, with the fields that it
-- sets or reads, the calls of the API server that it makes, its configuration and its names.
use agentic_tenancy.Base.{
  ℕ, String, ◌<>◌, Bool, Option, List, [], ◌∷◌, Error, Result, Action, ◌==◌, string_eq,
  if◌then◌else◌,
}
use agentic_tenancy.Base.Dict.{Dict}
use agentic_tenancy.Base.Int64.{Int64}

pub record EnvVar : Type 0 where
  pub name : String
  pub value : String

pub record Toleration : Type 0 where
  pub key : String
  pub value : String
  pub operator : String
  pub effect : String

pub record VolumeMount : Type 0 where
  pub name : String
  pub mount_path : String

-- Quantities are kept as the text that `resource.MustParse` reads.
pub record Container : Type 0 where
  pub name : String
  pub image : String
  pub env : List EnvVar
  pub requests : Dict String
  pub limits : Dict String
  pub volume_mounts : List VolumeMount

pub data VolumeSource : Type 0 where
  empty_dir : VolumeSource
  claim : String → VolumeSource

pub record Volume : Type 0 where
  pub name : String
  pub source : VolumeSource

pub record PodSpec : Type 0 where
  pub runtime_class_name : String
  pub priority_class_name : String
  pub service_account_name : String
  pub node_name : String
  pub node_selector : Dict String
  pub tolerations : List Toleration
  pub containers : List Container
  pub volumes : List Volume
  pub grace_period_s : Int64

-- `corev1.PodPhase`; `unset` is the empty text of an object that has no status yet.
pub data PodPhase : Type 0 where
  unset pending pod_running succeeded failed unknown : PodPhase

-- `deleting`: the deletion timestamp is set.
pub record Pod : Type 0 where
  pub name : String
  pub namespace : String
  pub labels : Dict String
  pub spec : PodSpec
  pub phase : PodPhase
  pub pod_ip : String
  pub deleting : Bool

pub record PersistentVolume : Type 0 where
  pub name : String
  pub storage : String
  pub access_modes : List String
  pub storage_class_name : String
  pub reclaim_policy : String
  pub driver : String
  pub volume_handle : String
  pub volume_attributes : Dict String

pub record Claim : Type 0 where
  pub name : String
  pub namespace : String
  pub access_modes : List String
  pub storage_class_name : String
  pub volume_name : String
  pub storage : String

-- `replicas` is an int32.
pub record Deployment : Type 0 where
  pub name : String
  pub namespace : String
  pub labels : Dict String
  pub replicas : ℕ
  pub match_labels : Dict String
  pub template_labels : Dict String
  pub template_spec : PodSpec

-- `kubernetes.Interface`, as far as it is called, the two predicates of `apimachinery`'s `errors`,
-- the text of a `time.Duration`, and `wait.PollUntilContextTimeout interval timeout` with an immediate first try: the condition
-- returns `some` value when it is done.
pub record KubeApi (W : Type 0) : Type 0 where
  pub create_pod : String → Pod → Action W (Result Pod)
  pub get_pod : String → String → Action W (Result Pod)
  pub delete_pod : String → String → Int64 → Action W (Result (Unit {0}))
  pub list_pods : String → String → Action W (Result (List Pod))
  pub update_pod : String → Pod → Action W (Result Pod)
  pub create_volume : PersistentVolume → Action W (Result (Unit {0}))
  pub delete_volume : String → Action W (Result (Unit {0}))
  pub create_claim : String → Claim → Action W (Result (Unit {0}))
  pub delete_claim : String → String → Action W (Result (Unit {0}))
  pub get_deployment : String → String → Action W (Result Deployment)
  pub create_deployment : String → Deployment → Action W (Result (Unit {0}))
  pub update_deployment : String → Deployment → Action W (Result (Unit {0}))
  pub is_not_found : Error → Bool
  pub is_already_exists : Error → Bool
  pub show_duration : ℕ → String
  pub poll_until : ℕ → ℕ → Action W (Option String) → Action W (Result String)

-- `Config`
pub record KubeConfig : Type 0 where
  pub kata_runtime_class : String
  pub zero_claw_image : String
  pub s3_bucket : String

abbrev pub default_kata_runtime : String
default_kata_runtime = "kata-qemu"

abbrev pub default_priority_norm : String
default_priority_norm = "tenant-normal"

abbrev pub default_priority_low : String
default_priority_low = "tenant-low"

-- `Client`
pub record KubeClient (W : Type 0) : Type 0 where
  pub cs : KubeApi W
  pub cfg : KubeConfig

-- `New`
unfoldable pub new_client : {W : Type 0} → KubeApi W → KubeConfig → KubeClient W
new_client cs cfg = record {
  cs = cs;
  cfg =
      if cfg.kata_runtime_class == ""
      then record cfg { kata_runtime_class = default_kata_runtime }
      else cfg;
}

abbrev pub pod_name : String → String
pod_name tenant_id = "zeroclaw-" <> tenant_id

abbrev pub pvc_name : String → String
pvc_name tenant_id = "pvc-tenant-" <> tenant_id

abbrev pub pv_name : String → String
pv_name tenant_id = "pv-tenant-" <> tenant_id

-- `resource.MustParse` texts of a ZeroClaw container, and its toleration.
abbrev pub zero_claw_requests : Dict String
zero_claw_requests = ("cpu", "100m") ∷ ("memory", "384Mi") ∷ []

abbrev pub zero_claw_limits : Dict String
zero_claw_limits = ("cpu", "500m") ∷ ("memory", "512Mi") ∷ []

abbrev pub kata_selector : Dict String
kata_selector = ("katacontainers.io/kata-runtime", "true") ∷ []

abbrev pub kata_tolerations : List Toleration
kata_tolerations =
    record { key = "kata-runtime"; value = "true"; operator = "Equal"; effect = "NoSchedule" } ∷ []
