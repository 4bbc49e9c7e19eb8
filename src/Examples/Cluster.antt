-- ===== src/Examples/Cluster.antt =====
-- A cluster in the small world: a pod runs as soon as it is created.
use agentic_tenancy.Base.{
  String, ◌≡◌, refl, Bool, false, Option, none, some, List, [], ◌∷◌, Error, foreign, Result, ok,
  err, arith, ◌==◌, string_eq, eq_iff, if◌then◌else◌,
}
use agentic_tenancy.Kube.Objects.{KubeApi, KubeClient, Pod, pod_running, Deployment}
use agentic_tenancy.Kube.Laws.{KubeFrames}
use agentic_tenancy.Kube.Pods.Ready.{PollIsSound}
use agentic_tenancy.Kube.WarmPool.Size.{KeepsDeployments}
use agentic_tenancy.Examples.World.{World, Core}

abbrev pub not_found : Error
not_found = foreign "not found"

abbrev is_not_found : Error → Bool
is_not_found (foreign s) = s == "not found"
is_not_found _ = false

unfoldable pub find_pod : String → List Pod → Result Pod
find_pod name [] = err not_found
find_pod name (p ∷ l) = if p.name == name then ok p else find_pod name l

unfoldable pub drop_pod : String → List Pod → List Pod
drop_pod name [] = []
drop_pod name (p ∷ l) = let rest = drop_pod name l in if p.name == name then rest else p ∷ rest

abbrev named_deployment : String → Option Deployment → Result Deployment
named_deployment name none = err not_found
named_deployment name (some d) = if d.name == name then ok d else err not_found

abbrev polled : Option String → Result String
polled none = err (foreign "context deadline exceeded")
polled (some v) = ok v

-- `find` answers the reads of a pod.
abbrev pub api_with : (String → List Pod → Result Pod) → KubeApi World
api_with find = record {
  create_pod = λ ns p w.
      let started : Pod = record p { phase = pod_running; pod_ip = "10.0.0.9" } in
      (ok started, record w { pods = started ∷ w.pods });
  get_pod = λ ns name w. (find name w.pods, w);
  delete_pod = λ ns name grace w. (ok tt, record w { pods = drop_pod name w.pods });
  list_pods = λ ns selector w. (ok w.pods, w);
  update_pod = λ ns p w. (ok p, record w { pods = p ∷ drop_pod p.name w.pods });
  create_volume = λ v w. (ok tt, w);
  delete_volume = λ name w. (err not_found, w);
  create_claim = λ ns c w. (ok tt, w);
  delete_claim = λ ns name w. (err not_found, w);
  get_deployment = λ ns name w. (named_deployment name w.deployment, w);
  create_deployment = λ ns d w. (ok tt, record w { deployment = some d });
  update_deployment = λ ns d w. (ok tt, record w { deployment = some d });
  is_not_found = is_not_found;
  is_already_exists = λ e. false;
  show_duration = λ d. "3m30s";
  poll_until = λ interval timeout condition w. let (o, w1) = condition w in (polled o, w1);
}

abbrev pub api : KubeApi World
api = api_with find_pod

abbrev pub k8s : KubeClient World
k8s = record {
  cs = api;
  cfg = record {
    kata_runtime_class = "kata-qemu";
    zero_claw_image = "zeroclaw:1";
    s3_bucket = "bucket";
  };
}

pub api_with-KubeFrames :
    {V : Type 0} (find : String → List Pod → Result Pod) (view : Core → V)
    → KubeFrames (api_with find) (λ (w : World). view w.core)
api_with-KubeFrames find view = record {
  creates_pod = λ ns p. record { at = λ w. refl };
  gets_pod = λ ns name. record { at = λ w. refl };
  deletes_pod = λ ns name grace. record { at = λ w. refl };
  lists_pods = λ ns selector. record { at = λ w. refl };
  updates_pod = λ ns p. record { at = λ w. refl };
  creates_volume = λ v. record { at = λ w. refl };
  deletes_volume = λ name. record { at = λ w. refl };
  creates_claim = λ ns c. record { at = λ w. refl };
  deletes_claim = λ ns name. record { at = λ w. refl };
  polls = λ interval timeout condition h. record { at = λ w. h.at w };
}

pub api-KubeFrames : {V : Type 0} (view : Core → V) → KubeFrames api (λ (w : World). view w.core)
api-KubeFrames view = api_with-KubeFrames find_pod view

polled_inverse : (o : Option String) (v : String) → polled o ≡ ok v → o ≡ some v
polled_inverse none v h = cc
polled_inverse (some u) v h = cc

pub api-PollIsSound : PollIsSound api
api-PollIsSound = record {
  met = λ interval timeout condition w v h. (w, polled_inverse (condition w).0 v h, refl);
}

abbrev pub stored : World → String → String → Option Deployment
stored w ns name = w.deployment

named_deployment_inverse :
    (name : String) (o : Option Deployment) (d : Deployment)
    → named_deployment name o ≡ ok d
    → (o ≡ some d) × (d.name ≡ name)
named_deployment_inverse name none d h = cc
named_deployment_inverse name (some e) d h = ground (arith, eq_iff e.name name)

pub api-KeepsDeployments : KeepsDeployments api stored
api-KeepsDeployments = record {
  got = λ ns name w d h. named_deployment_inverse name w.deployment d h;
  created = λ ns d w h. refl;
  updated = λ ns d w h. refl;
}
