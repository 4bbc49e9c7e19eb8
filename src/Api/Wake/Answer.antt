-- ===== src/Api/Wake/Answer.antt =====
-- What the answer of `Wake` says of the registry.
use agentic_tenancy.Base.{
  ℕ, String, ◌≡◌, ◌⊎◌, inl, inr, refl, sym, subst, some, arith, Result-cases,
}
use agentic_tenancy.Registry.Laws.{Directory, IsRegistry}
use agentic_tenancy.Kube.Objects.{KubeClient}
use agentic_tenancy.Kube.Pods.Ready.{PollIsSound}
use agentic_tenancy.Kube.Laws.{KubeFrames}
use agentic_tenancy.Services.{Frames}
use agentic_tenancy.Api.{Handler, Response, pod_ip_json, http_error}
use agentic_tenancy.Api.Wake.{wake, wake_or_get}
use agentic_tenancy.Api.Wake.Frames.{ClockFrames}
use agentic_tenancy.Api.Wake.Outcome.{RegisteredAt, wake_or_get-RegisteredAt}
use agentic_tenancy.Api.Wake.Failure.{AtMostAdded, wake_or_get_failed}

module _ {W : Type 0} (h : Handler W) (IsGood : W → Type 0) (look : W → Directory)
    (reg : IsRegistry h.reg IsGood look) (clock : ClockFrames h.clock look)
    (acquires : (id : String) (ttl : ℕ) → Frames look (h.lock.acquire_wake_lock id ttl))
    (releases : (id : String) → Frames look (h.lock.release_wake_lock id)) (k8s : KubeClient W)
    (kube : KubeFrames k8s.cs look) (polls : PollIsSound k8s.cs) where
  -- 200 with an IP at which the tenant is now registered as running, or 503 with a registry that has
  -- at most gained a provisioning record for it.
  abbrev Answered : String → W → Response × W → Type 0
  Answered id w (response, w') =
      ((ip : String) × (response.status ≡ 200)
        × (response.body ≡ pod_ip_json ip)
        × RegisteredAt look id ip w')
      ⊎ ((response.status ≡ 503) × AtMostAdded look id w w')

  -- `Wake` answers 200 with an IP, and then the tenant is registered as running at that IP, which is
  -- not empty; or it answers 503, and then the registry is as it was, except that a tenant that had
  -- no record may have gained one in the status provisioning, without pod, IP and token. The registry
  -- keeps its interface's promises, among them that a write that fails changes nothing; the calls of
  -- the clock, the lock and Kubernetes do not touch it, and a poll of Kubernetes succeeds only when
  -- its condition was met.
  pub wake_lem :
      h.k8s ≡ some k8s
      → (id : String) (w : W)
      → let (response, w') = wake h id w in
        ((ip : String) × (response.status ≡ 200)
          × (response.body ≡ pod_ip_json ip)
          × RegisteredAt look id ip w')
        ⊎ ((response.status ≡ 503) × AtMostAdded look id w w')
  unfolding wake
  wake_lem present id w =
      let (woken, w') = wake_or_get h id w in
      elim (Result-cases woken) [
        | inl (ip, e) ↦
            let answer : Response = record { status = 200; body = pod_ip_json ip } in
            let same : wake h id w ≡ (answer, w') = ground arith in
            subst (Answered id w) (sym same) (
              inl (
                ip,
                refl,
                refl,
                wake_or_get-RegisteredAt h IsGood look reg releases k8s polls present id w ip e,
              ))
        | inr (x, e) ↦
            let same : wake h id w ≡ (http_error 503 "failed to wake tenant", w') = ground arith in
            subst (Answered id w) (sym same) (
              inr (
                refl,
                wake_or_get_failed h IsGood look reg clock acquires releases k8s kube present id w x
                    e,
              ))
      ]
