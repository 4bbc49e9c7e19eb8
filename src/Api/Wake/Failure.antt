-- ===== src/Api/Wake/Failure.antt =====
-- What a wake that fails leaves in the registry.
use agentic_tenancy.Base.{
  ℕ, String, ◌≡◌, ◌⊎◌, refl, sym, ap, fun_ext, ◌∙◌, subst, true, false, Option, none, some, Error,
  err, arith, Result-cases, Option-cases, inl, inr,
}
use agentic_tenancy.Registry.{TenantRecord, provisioning, running}
use agentic_tenancy.Registry.Laws.{Directory, IsRegistry, Written, Unchanged}
use agentic_tenancy.Kube.Objects.{KubeClient, pvc_name}
use agentic_tenancy.Kube.Pods.{create_tenant_pod, wait_pod_ready}
use agentic_tenancy.Kube.Laws.{
  KubeFrames, create_tenant_pod-Frames, wait_pod_ready-Frames, create_pvc-Frames,
}
use agentic_tenancy.Kube.Volumes.{create_pvc}
use agentic_tenancy.Services.{Frames}
use agentic_tenancy.Api.{Handler}
use agentic_tenancy.Api.Wake.{
  running_ip, auto_record, ensure_record, namespace_of, claim_node, start_pod, provision,
  poll_until_running, wake_slowly, wake_with, wake_or_get,
}
use agentic_tenancy.Api.Wake.Frames.{ClockFrames, claim_node-Frames, poll_until_running-Frames}

-- A record of a tenant that has not run yet: in the status provisioning, without pod, IP and token.
abbrev pub IsProvisioning : String → TenantRecord → Type 0
IsProvisioning id r =
    (r.tenant_id ≡ id)
    × (r.status ≡ provisioning)
    × (r.pod_name ≡ "")
    × (r.pod_ip ≡ "")
    × (r.bot_token ≡ "")
    × (r.idle_timeout_s ≡ 300)

module _ {W : Type 0} (look : W → Directory) where
  -- From `w` to `w'` the registry has at most gained a provisioning record for the tenant, and only
  -- where the tenant had none.
  abbrev pub AtMostAdded : String → W → W → Type 0
  AtMostAdded id w w' =
      Unchanged (look w) (look w')
      ⊎ ((look w id ≡ none)
          × (r : TenantRecord) × IsProvisioning id r
          × Written (look w) id (some r) (look w'))

  then_same :
      (id : String) (w w1 w2 : W)
      → AtMostAdded id w w1
      → Unchanged (look w1) (look w2)
      → AtMostAdded id w w2
  then_same id w w1 w2 (inl u) v = inl (λ j. v j ∙ u j)
  then_same id w w1 w2 (inr (new, r, fresh, u)) v = inr (new, r, fresh, λ j. v j ∙ u j)

  after_same :
      (id : String) (w w1 w2 : W)
      → Unchanged (look w) (look w1)
      → AtMostAdded id w1 w2
      → AtMostAdded id w w2
  after_same id w w1 w2 v (inl u) = inl (λ j. u j ∙ v j)
  after_same id w w1 w2 v (inr (new, r, fresh, u)) =
      inr (sym (v id) ∙ new, r, fresh, λ j. rw (← v j) (u j))

module _ {W : Type 0} (h : Handler W) (IsGood : W → Type 0) (look : W → Directory)
    (reg : IsRegistry h.reg IsGood look) (clock : ClockFrames h.clock look)
    (acquires : (id : String) (ttl : ℕ) → Frames look (h.lock.acquire_wake_lock id ttl))
    (releases : (id : String) → Frames look (h.lock.release_wake_lock id)) (k8s : KubeClient W)
    (kube : KubeFrames k8s.cs look) where
  gets : (id : String) → Frames look (h.reg.get_tenant id)
  gets id = record { at = λ w. fun_ext (reg.get_frame id w) }

  ensure_record-AtMostAdded :
      (id : String) (o : Option TenantRecord) (w : W)
      → AtMostAdded look id w (ensure_record h id o w).1
  unfolding ensure_record
  ensure_record-AtMostAdded id (some r) w = inl (λ j. refl)
  ensure_record-AtMostAdded id none w =
      let (t1, w1) = h.clock.now w in
      let (t2, w2) = h.clock.now w1 in
      let r = auto_record h id t1 t2 in
      let told : look w2 ≡ look w = clock.tells.at w1 ∙ clock.tells.at w in
      let made = h.reg.create_tenant r in
      after_same look id w w2 (made w2).1 (λ j. ap (λ f. f j) told)
        (elim (Result-cases (made w2).0) [
          | inl (u, e) ↦
              let (new, written) = reg.created r w2 e in
              inr (new, r, (refl, refl, refl, refl, refl, refl), written)
          | inr (x, e) ↦ inl (reg.create_failed r w2 x e)
        ])

  start_pod_failed :
      (id : String) (rec : TenantRecord) (ns node : String) (w : W) (x : Error)
      → (start_pod h k8s id rec ns node w).0 ≡ err x
      → Unchanged (look w) (look (start_pod h k8s id rec ns node w).1)
  unfolding start_pod
  start_pod_failed id rec ns node w x e j =
      let (made, w1) = create_tenant_pod k8s id ns (pvc_name id) rec.bot_token node w in
      let (waited, w2) = wait_pod_ready k8s id ns h.cfg.pod_ready_wait w1 in
      let f1 : look w1 j ≡ look w j =
        ap (λ f. f j)
          ((create_tenant_pod-Frames k8s look kube id ns (pvc_name id) rec.bot_token node).at w) in
      let f2 : look w2 j ≡ look w1 j =
        ap (λ f. f j) ((wait_pod_ready-Frames k8s look kube id ns h.cfg.pod_ready_wait).at w1) in
      elim (Result-cases made) [
        | inr p ↦ ground (arith, f1)
        | inl (pod, p) ↦ elim (Result-cases waited) [
          | inr q ↦ ground (arith, f1, f2)
          | inl (v, q) ↦ elim (Result-cases (h.reg.update_status id running pod.name v w2).0) [
            | inr (y, z) ↦ ground (arith, f1, f2, reg.status_failed id running pod.name v w2 y z j)
            | inl (u, z) ↦ absurd (ground arith)
          ]
        ]
      ]

  provision_failed :
      (id : String) (o : Option TenantRecord) (w : W) (x : Error)
      → (provision h k8s id o w).0 ≡ err x
      → AtMostAdded look id w (provision h k8s id o w).1
  unfolding provision
  provision_failed id o w x e =
      let (rec, w1) = ensure_record h id o w in
      let ns = namespace_of h rec in
      let (claimed, w2) = create_pvc k8s id ns w1 in
      let (node, w3) = claim_node h k8s ns w2 in
      let f2 : look w2 ≡ look w1 = (create_pvc-Frames k8s look kube id ns).at w1 in
      let f3 : look w3 ≡ look w2 = (claim_node-Frames h look clock k8s kube ns).at w2 in
      let added = ensure_record-AtMostAdded id o w in
      elim (Result-cases claimed) [
        | inr p ↦
            let last : (provision h k8s id o w).1 ≡ w2 = ground arith in
            subst (AtMostAdded look id w) (sym last)
              (then_same look id w w1 w2 added (λ j. ap (λ f. f j) f2))
        | inl p ↦
            let same : provision h k8s id o w ≡ start_pod h k8s id rec ns node w3 = ground arith in
            let stays = start_pod_failed id rec ns node w3 x (ap (λ x. x.0) (sym same) ∙ e) in
            subst (λ x. AtMostAdded look id w x.1) (sym same)
              (then_same look id w w1 _ added (λ j. stays j ∙ ap (λ f. f j) (f3 ∙ f2)))
      ]

  wake_slowly_failed :
      (id : String) (o : Option TenantRecord) (w : W) (x : Error)
      → (wake_slowly h k8s id o w).0 ≡ err x
      → AtMostAdded look id w (wake_slowly h k8s id o w).1
  unfolding wake_slowly
  wake_slowly_failed id o w x e =
      let (acquired, w1) = h.lock.acquire_wake_lock id h.cfg.wake_lock_ttl w in
      let (woken, w2) = provision h k8s id o w1 in
      let f1 : look w1 ≡ look w = (acquires id h.cfg.wake_lock_ttl).at w in
      let start : Unchanged (look w) (look w1) = λ j. ap (λ f. f j) f1 in
      elim (Result-cases acquired) [
        | inr p ↦
            let last : (wake_slowly h k8s id o w).1 ≡ w1 = ground arith in
            subst (AtMostAdded look id w) (sym last) (inl start)
        | inl (true, p) ↦
            let last : (wake_slowly h k8s id o w).1 ≡ (h.lock.release_wake_lock id w2).1 =
              ground arith in
            let added = provision_failed id o w1 x (ground arith) in
            subst (AtMostAdded look id w) (sym last) (
              after_same look id w w1 _ start
                (then_same look id w1 w2 _ added (λ j. ap (λ f. f j) ((releases id).at w2))))
        | inl (false, p) ↦
            let last : (wake_slowly h k8s id o w).1 ≡ (poll_until_running h id w1).1 =
              ground arith in
            let waited = poll_until_running-Frames h look clock gets id in
            subst (AtMostAdded look id w) (sym last) (inl (λ j. ap (λ f. f j) (waited.at w1 ∙ f1)))
      ]

  wake_with_failed :
      (id : String) (w : W) (x : Error)
      → (wake_with h k8s id w).0 ≡ err x
      → AtMostAdded look id w (wake_with h k8s id w).1
  unfolding wake_with
  wake_with_failed id w x e =
      let (reply, w1) = h.reg.get_tenant id w in
      let start : Unchanged (look w) (look w1) = λ j. ap (λ f. f j) ((gets id).at w) in
      elim (Result-cases reply) [
        | inr p ↦
            let last : (wake_with h k8s id w).1 ≡ w1 = ground arith in
            subst (AtMostAdded look id w) (sym last) (inl start)
        | inl (o, p) ↦ elim (Option-cases (running_ip o)) [
          | inr q ↦ absurd (ground arith)
          | inl q ↦
              let same : wake_with h k8s id w ≡ wake_slowly h k8s id o w1 = ground arith in
              subst (λ x. AtMostAdded look id w x.1) (sym same)
                (after_same look id w w1 _ start
                  (wake_slowly_failed id o w1 x (ap (λ x. x.0) (sym same) ∙ e)))
        ]
      ]

  -- A wake that fails, at whatever step, leaves the registry as it was, except that a tenant that had
  -- no record may have gained one in the status provisioning, without pod, IP and token. The calls of
  -- Kubernetes, the lock and the clock do not touch the registry. The registry keeps its interface's
  -- promises, among them that a write that fails changes nothing.
  pub wake_or_get_failed :
      h.k8s ≡ some k8s
      → (id : String) (w : W) (x : Error) → (wake_or_get h id w).0 ≡ err x
      → AtMostAdded look id w (wake_or_get h id w).1
  unfolding wake_or_get
  wake_or_get_failed present id w x e =
      let same : wake_or_get h id w ≡ wake_with h k8s id w = ground arith in
      subst (λ x. AtMostAdded look id w x.1) (sym same)
        (wake_with_failed id w x (ap (λ x. x.0) (sym same) ∙ e))
