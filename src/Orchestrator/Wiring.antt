-- ===== src/Orchestrator/Wiring.antt =====
-- What the parts that the program starts have in common.
use agentic_tenancy.Base.{
  Bool, false, ◌%◌, ◌^◌, ◌==◌, string_eq, if◌then◌else◌, String, ◌≡◌, ◌<◌, ◌⊎◌, inl, inr, refl,
  subst, true, Option, none, some, ok, arith, Bool-cases, Result-cases,
}
use agentic_tenancy.Api
use agentic_tenancy.Api.{Handler, Response, http_error}
use agentic_tenancy.Api.Wake.{wake, wake_or_get}
use agentic_tenancy.Base.Int64.{Int64, signed_lt}
use agentic_tenancy.Kube.Objects.{KubeApi, KubeClient}
use agentic_tenancy.WarmPool
use agentic_tenancy.WarmPool.{Manager}
use agentic_tenancy.Lifecycle.{Leases}
use agentic_tenancy.Orchestrator.{
  Libraries, Background, Started, local_mode, clientset, started, start,
}

abbrev Refuses : {W : Type 0} → Handler W → Type 0
Refuses {W = W} h =
    (id : String) (w : W) → wake h id w ≡ (http_error 503 "failed to wake tenant", w)

abbrev Shares : {W : Type 0} → Handler W → Background W → Type 0
Shares h b =
    (h.k8s ≡ some b.lifecycle.k8s)
    × (b.reconciler.k8s ≡ b.lifecycle.k8s)
    × (b.lifecycle.reg ≡ h.reg)
    × (b.reconciler.reg ≡ h.reg)
    × (h.rdb ≡ some b.reconciler.rdb)
    × (b.lifecycle.namespace ≡ h.cfg.namespace)
    × (b.reconciler.namespace ≡ h.cfg.namespace)

-- The warm pool's manager: it runs exactly where the target is positive, keeps its low 32 bits, and
-- has the client and the namespace.
abbrev FitsPool : {W : Type 0} → KubeClient W → String → Int64 → Option (Manager W) → Type 0
FitsPool k8s namespace target none = signed_lt 0 target ≡ false
FitsPool k8s namespace target (some m) =
    (signed_lt 0 target ≡ true)
    × (m.k8s ≡ k8s)
    × (m.namespace ≡ namespace)
    × (m.target ≡ target % 2 ^ 32)

-- The program runs no loop, and refuses every wake, or the loops share the clients and the
-- namespace of the handlers, the warm pool for the given target.
abbrev pub Wired : {W : Type 0} → Int64 → Handler W → Option (Background W) → Type 0
Wired target h none = Refuses h
Wired target h (some b) = Shares h b × FitsPool b.lifecycle.k8s h.cfg.namespace target b.warm_pool

module _ {W RestConfig : Type 0} (libs : Libraries W RestConfig) (env : String → String) where
  -- The size of the warm pool in the environment.
  abbrev pub asked_size : Int64
  asked_size = libs.atoi (if env "WARM_POOL_TARGET" == "" then "10" else env "WARM_POOL_TARGET")

  pool-FitsPool :
      (k8s : KubeClient W) (namespace : String) (target : Int64) (b : Bool)
      → signed_lt 0 target ≡ b
      → FitsPool k8s namespace target (if b then some (WarmPool.new k8s namespace target) else none)
  unfolding WarmPool.new
  pool-FitsPool k8s namespace target true e = (e, refl, refl, refl)
  pool-FitsPool k8s namespace target false e = e

  abbrev Sound : Started W → Type 0
  Sound s =
      Wired asked_size s.handler s.background
      × (s.handler.cfg.pod_ready_wait < s.handler.cfg.wake_lock_ttl)
      × ((local_mode env ≡ true) ⊎ ((b : Background W) × (s.background ≡ some b)))

  started-Sound :
      (cs : Option (KubeApi W × Leases W))
      → clientset libs env ≡ ok cs
      → Sound (started libs env cs)
  unfolding wake wake_or_get Api.new clientset
  started-Sound none h = (
    λ id w. refl,
    omega arith,
    inl (elim (Bool-cases (local_mode env)) [ inl e ↦ e | inr e ↦ absurd (ground arith) ]),
  )
  started-Sound (some cs) h = (
    ((refl, refl, refl, refl, refl, refl, refl), pool-FitsPool _ _ asked_size _ refl),
    omega arith,
    inr (_, refl),
  )

  -- Where the program starts, it runs the background loops, which share the clients and the namespace of
  -- the handlers, or it is in local mode, runs none of them and answers every wake with 503. Among the
  -- loops is the warm pool's exactly where the size that the environment asks for, 10 by default, is
  -- positive, and that pool has the low 32 bits of it. The time that a wake waits for its pod is
  -- shorter than the life of its lock.
  pub start-Wired :
      (s : Started W)
      → start libs env ≡ ok s
      → Wired asked_size s.handler s.background
        × (s.handler.cfg.pod_ready_wait < s.handler.cfg.wake_lock_ttl)
        × ((local_mode env ≡ true) ⊎ ((b : Background W) × (s.background ≡ some b)))
  unfolding start
  start-Wired s h = elim (Result-cases (libs.load_aws (local_mode env))) [
    | inr (e, refused) ↦ absurd (ground arith)
    | inl (u, loaded) ↦ elim (Result-cases (clientset libs env)) [
      | inr (e, refused) ↦ absurd (ground arith)
      | inl (cs, made) ↦
          let same : started libs env cs ≡ s = ground arith in
          subst Sound same (started-Sound cs made)
    ]
  ]
