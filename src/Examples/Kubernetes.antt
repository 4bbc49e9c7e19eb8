-- ===== src/Examples/Kubernetes.antt =====
-- The Kubernetes client in the small world.
use agentic_tenancy.Base.{String, ◌≡◌, ◌↔◌, ◌⊎◌, refl, some, [], ◌∷◌, Error, ok, err, wrap}
use agentic_tenancy.Kube.Objects.{Deployment, Pod, pod_name, pod_running}
use agentic_tenancy.Kube.Pods.{wait_pod_ready, tenant_pod}
use agentic_tenancy.Kube.Pods.Ready.{SeenReady, wait_pod_ready_sound}
use agentic_tenancy.Kube.Volumes.{create_pvc, delete_pvc}
use agentic_tenancy.Kube.Volumes.Idempotent.{
  Harmless, create_pvc_lem, delete_pvc_lem, volume_made, claim_made, claim_gone, volume_gone,
}
use agentic_tenancy.Kube.WarmPool.{
  scale_warm_pool, warm_pool, warm_labels, warm_selector, ensure_warm_pool_deployment, get_warm_pod,
  warm_deployment,
}
use agentic_tenancy.Kube.WarmPool.Claims.{Claims, get_warm_pod_lem}
use agentic_tenancy.Kube.WarmPool.Size.{
  scale_warm_pool_lem, Sized, ensure_warm_pool_deployment-Sized,
}
use agentic_tenancy.Examples.World.{World, start}
use agentic_tenancy.Examples.Cluster.{k8s, find_pod, api-PollIsSound, api-KeepsDeployments, stored}

abbrev warm : Pod
warm = record (tenant_pod k8s "w" "tenants" "" "" "node-1") {
  name = "warm-pool-1";
  labels = warm_labels;
  phase = pod_running;
  pod_ip = "10.0.0.3";
}

abbrev served : World
served = record start {
  pods = warm ∷ record warm { name = "zeroclaw-alice" } ∷ [];
  deployment = some (warm_deployment k8s "tenants" 1);
}

abbrev warm_ip : String
warm_ip = "10.0.0.3"

abbrev ns : String
ns = "tenants"

alice_ready : (wait_pod_ready k8s "alice" ns 5 served).0 ≡ ok warm_ip
unfolding wait_pod_ready find_pod
alice_ready = refl

wait_pod_ready_sound_example :
    (w1 : World) × SeenReady k8s "alice" ns warm_ip w1
    × ((k8s.cs.get_pod ns (pod_name "alice") w1).1 ≡ (wait_pod_ready k8s "alice" ns 5 served).1)
wait_pod_ready_sound_example =
    wait_pod_ready_sound k8s api-PollIsSound "alice" ns 5 served warm_ip alice_ready

get_warm_pod_lem_example :
    Claims k8s ns served.pods
      (k8s.cs.list_pods ns warm_selector served).1
      (get_warm_pod k8s ns served)
get_warm_pod_lem_example = get_warm_pod_lem k8s ns served served.pods refl

scaled : (ensure_warm_pool_deployment k8s ns 3 served).0 ≡ ok tt
unfolding ensure_warm_pool_deployment
scaled = refl

ensure_warm_pool_deployment-Sized_example :
    Sized 3 k8s.cfg.zero_claw_image
      (stored (ensure_warm_pool_deployment k8s ns 3 served).1 ns warm_pool)
ensure_warm_pool_deployment-Sized_example =
    ensure_warm_pool_deployment-Sized k8s stored api-KeepsDeployments ns 3 served scaled

create_pvc_lem_example :
    (((create_pvc k8s "alice" ns start).0 ≡ ok tt) ↔ (
      Harmless k8s.cs.is_already_exists (volume_made k8s "alice" ns start).0
      × Harmless k8s.cs.is_already_exists (claim_made k8s "alice" ns start).0))
    × (Harmless k8s.cs.is_already_exists (volume_made k8s "alice" ns start).0
        ⊎ ((e : Error) × ((volume_made k8s "alice" ns start).0 ≡ err e)
            × (create_pvc k8s "alice" ns start
                ≡ (err (wrap "create PV" e), (volume_made k8s "alice" ns start).1))))
create_pvc_lem_example = create_pvc_lem k8s "alice" ns start

delete_pvc_lem_example :
    (((delete_pvc k8s "alice" ns start).0 ≡ ok tt) ↔ (
      Harmless k8s.cs.is_not_found (claim_gone k8s "alice" ns start).0
      × Harmless k8s.cs.is_not_found (volume_gone k8s "alice" ns start).0))
    × (Harmless k8s.cs.is_not_found (claim_gone k8s "alice" ns start).0
        ⊎ ((e : Error) × ((claim_gone k8s "alice" ns start).0 ≡ err e)
            × (delete_pvc k8s "alice" ns start ≡ (err e, (claim_gone k8s "alice" ns start).1))))
delete_pvc_lem_example = delete_pvc_lem k8s "alice" ns start

rescaled : (scale_warm_pool k8s ns 4 served).0 ≡ ok tt
unfolding scale_warm_pool
rescaled = refl

scale_warm_pool_lem_example :
    (d : Deployment) × (stored served ns warm_pool ≡ some d)
    × (stored (scale_warm_pool k8s ns 4 served).1 ns warm_pool ≡ some (record d { replicas = 4 }))
scale_warm_pool_lem_example =
    scale_warm_pool_lem k8s stored api-KeepsDeployments ns 4 served rescaled
