-- ===== src/Api/Wake/Frames.antt =====
-- The parts of a wake that leave a view of the world alone, where the calls that they make do.
use agentic_tenancy.Base.{
  ℕ, zero, suc, String, ◌≡◌, refl, Option, none, some, arith, Result-cases, inl, inr, ◌∙◌,
}
use agentic_tenancy.Registry.{RegistryClient, TenantRecord, TenantStatus, running}
use agentic_tenancy.Kube.Objects.{KubeClient, pvc_name}
use agentic_tenancy.Kube.Pods.{create_tenant_pod, wait_pod_ready}
use agentic_tenancy.Kube.Volumes.{create_pvc}
use agentic_tenancy.Kube.WarmPool.{get_warm_pod}
use agentic_tenancy.Kube.Laws.{
  KubeFrames, create_tenant_pod-Frames, wait_pod_ready-Frames, delete_pod-Frames, create_pvc-Frames,
  get_warm_pod-Frames,
}
use agentic_tenancy.Services.{Clock, Frames}
use agentic_tenancy.Api.{Handler}
use agentic_tenancy.Api.Wake.{
  auto_record, ensure_record, namespace_of, claim_node, start_pod, provision, poll_interval,
  poll_loop, poll_until_running,
}

pub record ClockFrames {W V : Type 0} (clock : Clock W) (view : W → V) : Type 0 where
  pub tells : Frames view clock.now
  pub pauses : (d : ℕ) → Frames view (clock.pause d)

-- The calls of the registry that a wake makes.
pub record RegistryFrames {W V : Type 0} (c : RegistryClient W) (view : W → V) : Type 0 where
  pub gets : (id : String) → Frames view (c.get_tenant id)
  pub creates : (r : TenantRecord) → Frames view (c.create_tenant r)
  pub sets_status :
      (id : String) (s : TenantStatus) (n ip : String) → Frames view (c.update_status id s n ip)

module _ {W V : Type 0} (h : Handler W) (view : W → V) (clock : ClockFrames h.clock view)
    (k8s : KubeClient W) (kube : KubeFrames k8s.cs view) where
  pub claim_node-Frames : (ns : String) → Frames view (claim_node h k8s ns)
  unfolding claim_node
  claim_node-Frames ns = record {
    at = λ w.
        let got = get_warm_pod k8s ns in
        elim (Result-cases (got w).0) [
          | inl (none, e) ↦ ground (arith, (get_warm_pod-Frames k8s view kube ns).at w)
          | inl (some pod, e) ↦ ground (
            arith,
            (get_warm_pod-Frames k8s view kube ns).at w,
            (delete_pod-Frames k8s view kube pod.name ns 0).at (got w).1,
          )
          | inr (x, e) ↦ ground (arith, (get_warm_pod-Frames k8s view kube ns).at w)
        ];
  }

module _ {W V : Type 0} (h : Handler W) (view : W → V) (clock : ClockFrames h.clock view)
    (gets : (id : String) → Frames view (h.reg.get_tenant id)) where
  poll_loop-frame :
      (fuel deadline : ℕ) (id : String) (w : W) → view (poll_loop h fuel deadline id w).1 ≡ view w
  unfolding poll_loop
  poll_loop-frame zero deadline id w = refl
  poll_loop-frame (suc fuel) deadline id w =
      let w1 = (h.clock.now w).1 in
      let w2 = (h.clock.pause (poll_interval h) w1).1 in
      let w3 = (h.reg.get_tenant id w2).1 in
      ground (
        arith,
        clock.tells.at w,
        (clock.pauses (poll_interval h)).at w1,
        (gets id).at w2,
        poll_loop-frame fuel deadline id w3,
      )

  pub poll_until_running-Frames : (id : String) → Frames view (poll_until_running h id)
  unfolding poll_until_running
  poll_until_running-Frames id = record {
    at = λ w. let (t, w1) = h.clock.now w in poll_loop-frame _ _ id w1 ∙ clock.tells.at w;
  }

module _ {W V : Type 0} (h : Handler W) (view : W → V) (clock : ClockFrames h.clock view)
    (k8s : KubeClient W) (kube : KubeFrames k8s.cs view) (reg : RegistryFrames h.reg view) where
  ensure_record-Frames :
      (id : String) (o : Option TenantRecord) → Frames view (ensure_record h id o)
  unfolding ensure_record
  ensure_record-Frames id (some r) = record { at = λ w. refl }
  ensure_record-Frames id none = record {
    at = λ w.
        let (t1, w1) = h.clock.now w in
        let (t2, w2) = h.clock.now w1 in
        ground (
          arith,
          clock.tells.at w,
          clock.tells.at w1,
          (reg.creates (auto_record h id t1 t2)).at w2,
        );
  }

  start_pod-Frames :
      (id : String) (rec : TenantRecord) (ns node : String)
      → Frames view (start_pod h k8s id rec ns node)
  unfolding start_pod
  start_pod-Frames id rec ns node = record {
    at = λ w.
        let (pod_reply, w1) = create_tenant_pod k8s id ns (pvc_name id) rec.bot_token node w in
        let (ip_reply, w2) = wait_pod_ready k8s id ns h.cfg.pod_ready_wait w1 in
        let made =
          (create_tenant_pod-Frames k8s view kube id ns (pvc_name id) rec.bot_token node).at w in
        let waited = (wait_pod_ready-Frames k8s view kube id ns h.cfg.pod_ready_wait).at w1 in
        elim (Result-cases pod_reply) [
          | inl (pod, e) ↦ elim (Result-cases ip_reply) [
            | inl (ip, f) ↦
                ground (arith, made, waited, (reg.sets_status id running pod.name ip).at w2)
            | inr f ↦ ground (arith, made, waited)
          ]
          | inr (x, e) ↦ ground (arith, made)
        ];
  }

  pub provision-Frames :
      (id : String) (o : Option TenantRecord) → Frames view (provision h k8s id o)
  unfolding provision
  provision-Frames id o = record {
    at = λ w.
        let (rec, w1) = ensure_record h id o w in
        let ns = namespace_of h rec in
        let w2 = (create_pvc k8s id ns w1).1 in
        let (node, w3) = claim_node h k8s ns w2 in
        ground (
          arith,
          (ensure_record-Frames id o).at w,
          (create_pvc-Frames k8s view kube id ns).at w1,
          (claim_node-Frames h view clock k8s kube ns).at w2,
          (start_pod-Frames id rec ns node).at w3,
        );
  }
