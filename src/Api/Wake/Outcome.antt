-- ===== src/Api/Wake/Outcome.antt =====
-- What a wake that succeeds leaves in the registry.
use agentic_tenancy.Base.{
  String, ◌≡◌, ◌≢◌, sym, ap, ◌∙◌, subst, true, false, Option, some, ok, arith, Result-cases,
  Option-cases, inl, inr, ==-refl,
}
use agentic_tenancy.Registry.{TenantRecord, running}
use agentic_tenancy.Registry.Laws.{Directory, IsRegistry}
use agentic_tenancy.Kube.Objects.{KubeClient, pvc_name}
use agentic_tenancy.Kube.Pods.{create_tenant_pod, wait_pod_ready}
use agentic_tenancy.Kube.Pods.Ready.{PollIsSound, wait_pod_ready_sound}
use agentic_tenancy.Kube.Volumes.{create_pvc}
use agentic_tenancy.Services.{Frames}
use agentic_tenancy.Api.{Handler}
use agentic_tenancy.Api.Wake.{
  running_ip, ensure_record, namespace_of, claim_node, start_pod, provision, poll_until_running,
  wake_slowly, wake_with, wake_or_get,
}
use agentic_tenancy.Api.Wake.Poll.{running_ip_lem, poll_until_running_sound}

-- In the world `w` the tenant is registered as running at `ip`, which is not empty.
abbrev pub RegisteredAt : {W : Type 0} → (W → Directory) → String → String → W → Type 0
RegisteredAt look id ip w =
    (r : TenantRecord) × (look w id ≡ some r) × (r.status ≡ running) × (r.pod_ip ≡ ip) × (ip ≢ "")

module _ {W : Type 0} (h : Handler W) (IsGood : W → Type 0) (look : W → Directory)
    (reg : IsRegistry h.reg IsGood look)
    (releases : (id : String) → Frames look (h.lock.release_wake_lock id)) (k8s : KubeClient W)
    (polls : PollIsSound k8s.cs) where
  start_pod-RegisteredAt :
      (id : String) (rec : TenantRecord) (ns node : String) (w : W) (ip : String)
      → (start_pod h k8s id rec ns node w).0 ≡ ok ip
      → RegisteredAt look id ip (start_pod h k8s id rec ns node w).1
  unfolding start_pod
  start_pod-RegisteredAt id rec ns node w ip e =
      let (made, w1) = create_tenant_pod k8s id ns (pvc_name id) rec.bot_token node w in
      let (waited, w2) = wait_pod_ready k8s id ns h.cfg.pod_ready_wait w1 in
      elim (Result-cases made) [
        | inr p ↦ absurd (ground arith)
        | inl (pod, p) ↦ elim (Result-cases waited) [
          | inr q ↦ absurd (ground arith)
          | inl (v, q) ↦
              let (set, w3) = h.reg.update_status id running pod.name v w2 in
              elim (Result-cases set) [
                | inr x ↦ absurd (ground arith)
                | inl (u, x) ↦
                    let same : v ≡ ip = ground arith in
                    let last : (start_pod h k8s id rec ns node w).1 ≡ w3 = ground arith in
                    let (r, runs, named, at, written) =
                      reg.status_set id running pod.name v w2 (ground arith) in
                    let (_, (_, _, _, _, full), _) =
                      wait_pod_ready_sound k8s polls id ns h.cfg.pod_ready_wait w1 v q in
                    subst (λ i. RegisteredAt look id i (start_pod h k8s id rec ns node w).1) same
                      (subst (RegisteredAt look id v) (sym last)
                        (r, ground (arith, written id, ==-refl id), runs, at, full))
              ]
        ]
      ]

  provision-RegisteredAt :
      (id : String) (o : Option TenantRecord) (w : W) (ip : String)
      → (provision h k8s id o w).0 ≡ ok ip
      → RegisteredAt look id ip (provision h k8s id o w).1
  unfolding provision
  provision-RegisteredAt id o w ip e =
      let (rec, w1) = ensure_record h id o w in
      let ns = namespace_of h rec in
      let (claimed, w2) = create_pvc k8s id ns w1 in
      let (node, w3) = claim_node h k8s ns w2 in
      elim (Result-cases claimed) [
        | inr p ↦ absurd (ground arith)
        | inl p ↦
            let same : provision h k8s id o w ≡ start_pod h k8s id rec ns node w3 = ground arith in
            subst (λ x. RegisteredAt look id ip x.1) (sym same)
              (start_pod-RegisteredAt id rec ns node w3 ip (ap (λ x. x.0) (sym same) ∙ e))
      ]

  wake_slowly-RegisteredAt :
      (id : String) (o : Option TenantRecord) (w : W) (ip : String)
      → (wake_slowly h k8s id o w).0 ≡ ok ip
      → RegisteredAt look id ip (wake_slowly h k8s id o w).1
  unfolding wake_slowly
  wake_slowly-RegisteredAt id o w ip e =
      let (acquired, w1) = h.lock.acquire_wake_lock id h.cfg.wake_lock_ttl w in
      let (woken, w2) = provision h k8s id o w1 in
      elim (Result-cases acquired) [
        | inr p ↦ absurd (ground arith)
        | inl (true, p) ↦
            let last : (wake_slowly h k8s id o w).1 ≡ (h.lock.release_wake_lock id w2).1 =
              ground arith in
            let (r, found, runs, at, full) = provision-RegisteredAt id o w1 ip (ground arith) in
            subst (RegisteredAt look id ip) (sym last)
              (r, ap (λ f. f id) ((releases id).at w2) ∙ found, runs, at, full)
        | inl (false, p) ↦
            let same : wake_slowly h k8s id o w ≡ poll_until_running h id w1 = ground arith in
            let (w3, r, got, runs, at, full) =
              poll_until_running_sound h id w1 ip (ap (λ x. x.0) (sym same) ∙ e) in
            let found = reg.get_reply id w3 (some r) (ap (λ x. x.0) got) in
            let after : look (h.reg.get_tenant id w3).1 id ≡ some r =
              reg.get_frame id w3 id ∙ sym found in
            subst (λ x. RegisteredAt look id ip x.1) (sym same)
              (r, rw (got) at after, runs, at, full)
      ]

  wake_with-RegisteredAt :
      (id : String) (w : W) (ip : String)
      → (wake_with h k8s id w).0 ≡ ok ip
      → RegisteredAt look id ip (wake_with h k8s id w).1
  unfolding wake_with
  wake_with-RegisteredAt id w ip e =
      let (reply, w1) = h.reg.get_tenant id w in
      elim (Result-cases reply) [
        | inr p ↦ absurd (ground arith)
        | inl (o, p) ↦ elim (Option-cases (running_ip o)) [
          | inl q ↦
              let same : wake_with h k8s id w ≡ wake_slowly h k8s id o w1 = ground arith in
              subst (λ x. RegisteredAt look id ip x.1) (sym same)
                (wake_slowly-RegisteredAt id o w1 ip (ap (λ x. x.0) (sym same) ∙ e))
          | inr (v, q) ↦
              let same : wake_with h k8s id w ≡ (ok v, w1) = ground arith in
              let is_ip : v ≡ ip = ground arith in
              let (r, is_r, runs, at, full) = running_ip_lem h o ip (q ∙ ap some is_ip) in
              let found : look w1 id ≡ some r =
                reg.get_frame id w id ∙ (sym (reg.get_reply id w o p) ∙ is_r) in
              subst (λ x. RegisteredAt look id ip x.1) (sym same) (r, found, runs, at, full)
        ]
      ]

  -- A wake that returns an IP leaves the tenant registered as running at that IP, which is not
  -- empty: on the fast path, after waiting for another replica, and after starting the pod. The
  -- registry keeps its interface's promises, and releasing the lock does not touch it. A poll of
  -- Kubernetes succeeds only when its condition was met.
  pub wake_or_get-RegisteredAt :
      h.k8s ≡ some k8s
      → (id : String) (w : W) (ip : String) → (wake_or_get h id w).0 ≡ ok ip
      → RegisteredAt look id ip (wake_or_get h id w).1
  unfolding wake_or_get
  wake_or_get-RegisteredAt present id w ip e =
      let same : wake_or_get h id w ≡ wake_with h k8s id w = ground arith in
      subst (λ x. RegisteredAt look id ip x.1) (sym same)
        (wake_with-RegisteredAt id w ip (ap (λ x. x.0) (sym same) ∙ e))
