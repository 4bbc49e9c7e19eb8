-- ===== src/Router/Orchestrator.antt =====
-- The router and the orchestrator together: what the router caches.
use agentic_tenancy.Base.{ℕ, String, ◌≡◌, ap, subst, some, ok, arith, inl, inr, Result-cases}
use agentic_tenancy.Registry.Laws.{Directory, IsRegistry}
use agentic_tenancy.Kube.Objects.{KubeClient}
use agentic_tenancy.Kube.Pods.Ready.{PollIsSound}
use agentic_tenancy.Kube.Laws.{KubeFrames}
use agentic_tenancy.Services.{Frames, HttpReply}
use agentic_tenancy.Api.{Handler, Response, Body, pod_ip_json}
use agentic_tenancy.Api.Wake.{wake}
use agentic_tenancy.Api.Wake.Frames.{ClockFrames}
use agentic_tenancy.Api.Wake.Outcome.{RegisteredAt}
use agentic_tenancy.Api.Wake.Answer.{wake_lem}
use agentic_tenancy.Router.{Router, json_type, wake_url, wake_pod, handle_telegram_update}
use agentic_tenancy.Router.Steps.{woken_at}
use agentic_tenancy.Router.Cache.{Cache, IsCache, OnlyOwn, update-OnlyOwn}

-- The bytes of a response.
abbrev pub reply_of : (Body → String) → Response → HttpReply
reply_of encode r = record { status = r.status; body = encode r.body }

-- The router's requests for a wake reach the orchestrator, which serves them by `Wake`, and the
-- router decodes the IP that the orchestrator encodes.
pub record Serves {W : Type 0} (rt : Router W) (h : Handler W) (encode : Body → String)
    (id : String) : Type 0 where
  pub wakes :
      (w : W)
      → rt.http.send "POST" (wake_url rt id) json_type "" w
        ≡ (ok (reply_of encode (wake h id w).0), (wake h id w).1)
  pub decodes : (ip : String) → rt.json.decode_pod_ip (encode (pod_ip_json ip)) ≡ ok ip

module _ {W : Type 0} (rt : Router W) (h : Handler W) (encode : Body → String) (id : String)
    (serves : Serves rt h encode id) (IsGood : W → Type 0) (look : W → Directory)
    (reg : IsRegistry h.reg IsGood look) (clock : ClockFrames h.clock look)
    (acquires : (id : String) (ttl : ℕ) → Frames look (h.lock.acquire_wake_lock id ttl))
    (releases : (id : String) → Frames look (h.lock.release_wake_lock id)) (k8s : KubeClient W)
    (kube : KubeFrames k8s.cs look) (polls : PollIsSound k8s.cs) (present : h.k8s ≡ some k8s) where
  wake_pod-RegisteredAt :
      (w : W) (ip : String) → (wake_pod rt id w).0 ≡ ok ip → RegisteredAt look id ip (wake h id w).1
  unfolding wake_pod
  wake_pod-RegisteredAt w ip e =
      let answer = wake_lem h IsGood look reg clock acquires releases k8s kube polls present id w in
      elim (Result-cases (rt.http.build "POST" (wake_url rt id))) [
        | inr (x, refused) ↦ absurd (ground arith)
        | inl (u, built) ↦ elim answer [
          | inr (failed, _) ↦ absurd (ground (arith, serves.wakes w))
          | inl (ip', done, body, at) ↦
              let same : ip' ≡ ip =
                ground (arith, serves.wakes w, serves.decodes ip', ap encode body) in
              subst (λ i. RegisteredAt look id i (wake h id w).1) same at
        ]
      ]

  module _ (cache : W → Cache) (redis : IsCache rt.rdb cache)
      (sends : (m u c b : String) → Frames cache (rt.http.send m u c b)) where
    -- An update changes no other tenant's entry `router:endpoint:<id>` of the endpoint cache, and no
    -- other key. The tenant's own entry is afterwards as it was, or gone, or an IP at which the
    -- orchestrator had the tenant registered as running when it had served the wake that the update
    -- asked for. The orchestrator serves the router's wakes, over a registry that keeps its
    -- interface's promises and that the clock, the lock and Kubernetes do not touch; a poll of
    -- Kubernetes succeeds only when its condition was met; Redis behaves as documented, where a call
    -- that fails may have been carried out, no key expires meanwhile, and a request does not touch
    -- the cache.
    pub cached_endpoints_lem :
        (body : String) (w : W)
        → OnlyOwn rt cache redis sends id
            (λ ip. RegisteredAt look id ip (wake h id (woken_at rt id body w)).1)
            w
            (handle_telegram_update rt id body w).1
    cached_endpoints_lem body w =
        update-OnlyOwn rt cache redis sends id _ body w
          (wake_pod-RegisteredAt (woken_at rt id body w))
