-- ===== src/Kube/Pods/Ready.antt =====
-- `WaitPodReady` returns only the IP of a pod that was seen running.
use agentic_tenancy.Base.{
  ℕ, String, ◌≡◌, ◌≢◌, refl, Option, some, Result, ok, err, Action, subst, arith, eq_iff,
  Result-cases, inl, inr, string_eq,
}
use agentic_tenancy.Kube.Objects.{KubeApi, KubeClient, Pod, pod_running, pod_name}
use agentic_tenancy.Kube.Pods.{wait_pod_ready, ready_ip, poll_interval, poll_pod}

-- `wait.PollUntilContextTimeout` succeeds only right after its condition was met.
pub record PollIsSound {W : Type 0} (api : KubeApi W) : Type 0 where
  pub met :
      (interval timeout : ℕ) (condition : Action W (Option String)) (w : W) (v : String)
      → (api.poll_until interval timeout condition w).0 ≡ ok v
      → (w1 : W) × ((condition w1).0 ≡ some v)
        × ((condition w1).1 ≡ (api.poll_until interval timeout condition w).1)

-- The reply of a read of the tenant's pod, at the world `w`: running, with the IP `ip`.
abbrev pub SeenReady : {W : Type 0} → KubeClient W → String → String → String → W → Type 0
SeenReady c tenant_id namespace ip w =
    (pod : Pod) × ((c.cs.get_pod namespace (pod_name tenant_id) w).0 ≡ ok pod)
    × (pod.phase ≡ pod_running)
    × (pod.pod_ip ≡ ip)
    × (ip ≢ "")

module _ {W : Type 0} (c : KubeClient W) where
  ready_ip_inverse :
      (found : Result Pod) (v : String)
      → ready_ip c found ≡ some v
      → (pod : Pod) × (found ≡ ok pod) × (pod.phase ≡ pod_running) × (pod.pod_ip ≡ v) × (v ≢ "")
  ready_ip_inverse (err e) v h = cc
  ready_ip_inverse (ok pod) v h =
      (pod, refl, ground arith, ground arith, λ e. ground (arith, eq_iff pod.pod_ip ""))

module _ {W : Type 0} (c : KubeClient W) (sound : PollIsSound c.cs) where
  -- If `WaitPodReady` returns an IP, then the last read of the tenant's pod returned a pod in the
  -- phase Running with that IP, and the IP is not empty. A poll succeeds only right after its
  -- condition was met.
  pub wait_pod_ready_sound :
      (tenant_id namespace : String) (timeout : ℕ) (w : W) (ip : String)
      → (wait_pod_ready c tenant_id namespace timeout w).0 ≡ ok ip
      → (w1 : W) × SeenReady c tenant_id namespace ip w1
        × ((c.cs.get_pod namespace (pod_name tenant_id) w1).1
            ≡ (wait_pod_ready c tenant_id namespace timeout w).1)
  unfolding wait_pod_ready
  wait_pod_ready_sound tenant_id namespace timeout w ip h =
      let poll =
        c.cs.poll_until (poll_interval) timeout (poll_pod c namespace (pod_name tenant_id)) in
      elim (Result-cases (poll w).0) [
        | inl (v, e) ↦
            let (w1, met, last) =
              sound.met (poll_interval) timeout (poll_pod c namespace (pod_name tenant_id)) w v e in
            let same : v ≡ ip = ground arith in
            let seen =
              ready_ip_inverse c (c.cs.get_pod namespace (pod_name tenant_id) w1).0 v met in
            (w1, subst (λ i. SeenReady c tenant_id namespace i w1) same seen, ground arith)
        | inr (x, e) ↦ ground arith
      ]
