-- ===== src/Kube/Laws.antt =====
-- What the proofs assume of the API server: that a call leaves some view of the world as it was,
-- or, for pods, what a read of a pod returns.
use agentic_tenancy.Base.{
  ℕ, String, ◌≡◌, Option, List, [], ◌∷◌, Result-cases, inl, inr, Action, arith, refl,
}
use agentic_tenancy.Base.Int64.{Int64}
use agentic_tenancy.Kube.Objects.{KubeApi, KubeClient, Pod, PersistentVolume, Claim}
use agentic_tenancy.Kube.Pods.{
  create_tenant_pod, wait_pod_ready, delete_pod, pod_exists, tenant_pod, poll_interval, poll_pod,
}
use agentic_tenancy.Kube.Volumes.{create_pvc, delete_pvc, tenant_volume, tenant_claim}
use agentic_tenancy.Kube.WarmPool.{claim_first, get_warm_pod, claimed, warm_selector}
use agentic_tenancy.Kube.Objects.{pod_name, pvc_name, pv_name}
use agentic_tenancy.Services.{Frames}

-- The calls about pods and volumes leave `view` alone.
pub record KubeFrames {W V : Type 0} (api : KubeApi W) (view : W → V) : Type 0 where
  pub creates_pod : (ns : String) (p : Pod) → Frames view (api.create_pod ns p)
  pub gets_pod : (ns name : String) → Frames view (api.get_pod ns name)
  pub deletes_pod : (ns name : String) (grace : Int64) → Frames view (api.delete_pod ns name grace)
  pub lists_pods : (ns selector : String) → Frames view (api.list_pods ns selector)
  pub updates_pod : (ns : String) (p : Pod) → Frames view (api.update_pod ns p)
  pub creates_volume : (v : PersistentVolume) → Frames view (api.create_volume v)
  pub deletes_volume : (name : String) → Frames view (api.delete_volume name)
  pub creates_claim : (ns : String) (c : Claim) → Frames view (api.create_claim ns c)
  pub deletes_claim : (ns name : String) → Frames view (api.delete_claim ns name)
  pub polls :
      (interval timeout : ℕ) (condition : Action W (Option String))
      → Frames view condition
      → Frames view (api.poll_until interval timeout condition)

module _ {W V : Type 0} (c : KubeClient W) (view : W → V) (h : KubeFrames c.cs view) where
  pub create_tenant_pod-Frames :
      (id ns pvc token node : String) → Frames view (create_tenant_pod c id ns pvc token node)
  unfolding create_tenant_pod
  create_tenant_pod-Frames id ns pvc token node = record {
    at = λ w.
        let p = tenant_pod c id ns pvc token node in
        ground (
          arith,
          (h.creates_pod ns p).at w,
          (h.gets_pod ns (pod_name id)).at (c.cs.create_pod ns p w).1,
        );
  }

  poll_pod-Frames : (ns name : String) → Frames view (poll_pod c ns name)
  poll_pod-Frames ns name = record { at = λ w. (h.gets_pod ns name).at w }

  pub wait_pod_ready-Frames : (id ns : String) (t : ℕ) → Frames view (wait_pod_ready c id ns t)
  unfolding wait_pod_ready
  wait_pod_ready-Frames id ns t = record {
    at = λ w. ground (arith, (h.polls poll_interval t _ (poll_pod-Frames ns (pod_name id))).at w);
  }

  pub delete_pod-Frames : (name ns : String) (g : Int64) → Frames view (delete_pod c name ns g)
  unfolding delete_pod
  delete_pod-Frames name ns g = record { at = λ w. ground (arith, (h.deletes_pod ns name g).at w) }

  pub pod_exists-Frames : (name ns : String) → Frames view (pod_exists c name ns)
  unfolding pod_exists
  pod_exists-Frames name ns = record { at = λ w. ground (arith, (h.gets_pod ns name).at w) }

  pub create_pvc-Frames : (id ns : String) → Frames view (create_pvc c id ns)
  unfolding create_pvc
  create_pvc-Frames id ns = record {
    at = λ w. ground (
      arith,
      (h.creates_volume (tenant_volume c id)).at w,
      (h.creates_claim ns (tenant_claim c id ns)).at (c.cs.create_volume (tenant_volume c id) w).1,
    );
  }

  pub delete_pvc-Frames : (id ns : String) → Frames view (delete_pvc c id ns)
  unfolding delete_pvc
  delete_pvc-Frames id ns = record {
    at = λ w. ground (
      arith,
      (h.deletes_claim ns (pvc_name id)).at w,
      (h.deletes_volume (pv_name id)).at (c.cs.delete_claim ns (pvc_name id) w).1,
    );
  }

  claim_first-frame :
      (ns : String) (pods : List Pod) (w : W) → view (claim_first c ns pods w).1 ≡ view w
  unfolding claim_first
  claim_first-frame ns [] w = refl
  claim_first-frame ns (p ∷ l) w = ground (
    arith,
    (h.updates_pod ns (claimed p)).at w,
    claim_first-frame ns l w,
    claim_first-frame ns l (c.cs.update_pod ns (claimed p) w).1,
  )

  pub get_warm_pod-Frames : (ns : String) → Frames view (get_warm_pod c ns)
  unfolding get_warm_pod
  get_warm_pod-Frames ns = record {
    at = λ w.
        let listed = c.cs.list_pods ns warm_selector in
        elim (Result-cases (listed w).0) [
          | inl (pods, e) ↦
              ground (
                arith,
                (h.lists_pods ns warm_selector).at w,
                claim_first-frame ns pods (listed w).1,
              )
          | inr (x, e) ↦ ground (arith, (h.lists_pods ns warm_selector).at w)
        ];
  }
