-- ===== src/Kube/WarmPool/Size.antt =====
-- The warm-pool deployment after `EnsureWarmPoolDeployment`.
use agentic_tenancy.Base.{
  ℕ, String, ◌≡◌, refl, Option, none, some, List, [], ◌∷◌, ok, arith, subst, sym, ap, ◌∙◌,
  Result-cases, Option-cases, Bool-cases, inl, inr,
}
use agentic_tenancy.Kube.Objects.{KubeApi, KubeClient, Deployment, Container}
use agentic_tenancy.Kube.WarmPool.{
  warm_pool, ensure_warm_pool_deployment, set_image, warm_deployment, refresh, scale_warm_pool,
}

-- The deployments of the API server: what a read returns, and what a write that succeeds leaves.
pub record KeepsDeployments {W : Type 0} (api : KubeApi W)
    (stored : W → String → String → Option Deployment) : Type 0 where
  pub got :
      (ns name : String) (w : W) (d : Deployment)
      → (api.get_deployment ns name w).0 ≡ ok d
      → (stored w ns name ≡ some d) × (d.name ≡ name)
  pub created :
      (ns : String) (d : Deployment) (w : W)
      → (api.create_deployment ns d w).0 ≡ ok tt
      → stored (api.create_deployment ns d w).1 ns d.name ≡ some d
  pub updated :
      (ns : String) (d : Deployment) (w : W)
      → (api.update_deployment ns d w).0 ≡ ok tt
      → stored (api.update_deployment ns d w).1 ns d.name ≡ some d

abbrev pub FirstImage : List Container → String → Type 0
FirstImage [] image = ⊥
FirstImage (k ∷ _) image = k.image ≡ image

-- The deployment has `replicas` replicas, and its first container the image.
abbrev pub Sized : ℕ → String → Option Deployment → Type 0
Sized replicas image none = ⊥
Sized replicas image (some d) =
    (d.replicas ≡ replicas) × FirstImage d.template_spec.containers image

set_image_lem :
    (image : String) (l l' : List Container) → set_image image l ≡ some l' → FirstImage l' image
set_image_lem image [] l' h = absurd (ground arith)
set_image_lem image (k ∷ l) [] h = ground arith
set_image_lem image (k ∷ l) (k' ∷ l') h = ground arith

module _ {W : Type 0} (c : KubeClient W) (stored : W → String → String → Option Deployment)
    (h : KeepsDeployments c.cs stored) where
  refresh-Sized :
      (ns : String) (replicas : ℕ) (d : Deployment) (w : W)
      → d.name ≡ warm_pool
      → (refresh c ns replicas d w).0 ≡ ok tt
      → Sized replicas c.cfg.zero_claw_image (stored (refresh c ns replicas d w).1 ns warm_pool)
  refresh-Sized ns replicas d w named e =
      elim (Option-cases (set_image c.cfg.zero_claw_image d.template_spec.containers)) [
        | inl q ↦ absurd (ground arith)
        | inr (l, q) ↦
            let d' : Deployment = record d {
              replicas = replicas;
              template_spec = record d.template_spec { containers = l };
            } in
            let kept = h.updated ns d' w (ground arith) in
            let found : stored (refresh c ns replicas d w).1 ns warm_pool ≡ some d' =
              rw (q, refresh) (rw (← named) kept) in
            subst (Sized replicas c.cfg.zero_claw_image) (sym found)
              (refl, set_image_lem c.cfg.zero_claw_image d.template_spec.containers l q)
      ]

  create-Sized :
      (ns : String) (replicas : ℕ) (w : W)
      → (c.cs.create_deployment ns (warm_deployment c ns replicas) w).0 ≡ ok tt
      → Sized replicas c.cfg.zero_claw_image
          (stored (c.cs.create_deployment ns (warm_deployment c ns replicas) w).1 ns warm_pool)
  create-Sized ns replicas w e =
      subst (Sized replicas c.cfg.zero_claw_image)
        (sym (h.created ns (warm_deployment c ns replicas) w e)) (refl, refl)

  -- When `EnsureWarmPoolDeployment` succeeds, whether it created the deployment or updated it, the
  -- deployment "warm-pool" of the namespace has the replica count and the client's image. The API
  -- server keeps the deployments that it accepts.
  pub ensure_warm_pool_deployment-Sized :
      (ns : String) (replicas : ℕ) (w : W)
      → (ensure_warm_pool_deployment c ns replicas w).0 ≡ ok tt
      → Sized replicas c.cfg.zero_claw_image
          (stored (ensure_warm_pool_deployment c ns replicas w).1 ns warm_pool)
  unfolding ensure_warm_pool_deployment
  ensure_warm_pool_deployment-Sized ns replicas w e =
      let found = c.cs.get_deployment ns warm_pool in
      elim (Result-cases (found w).0) [
        | inl (d, p) ↦
            let same : ensure_warm_pool_deployment c ns replicas w
                ≡ refresh c ns replicas d (found w).1 =
              ground arith in
            subst (λ x. Sized replicas c.cfg.zero_claw_image (stored x.1 ns warm_pool)) (sym same)
              (refresh-Sized ns replicas d (found w).1 (h.got ns warm_pool w d p).1 (ground arith))
        | inr (x, p) ↦ elim (Bool-cases (c.cs.is_not_found x)) [
          | inl missing ↦
              let same : ensure_warm_pool_deployment c ns replicas w
                  ≡ c.cs.create_deployment ns (warm_deployment c ns replicas) (found w).1 =
                ground arith in
              subst (λ x. Sized replicas c.cfg.zero_claw_image (stored x.1 ns warm_pool)) (sym same)
                (create-Sized ns replicas (found w).1 (ground arith))
          | inr other ↦ absurd (ground arith)
        ]
      ]

  -- When `ScaleWarmPool` succeeds, there was a deployment "warm-pool" in the namespace, and it is as
  -- it was but for the replica count, which is the given one. The API server keeps the deployments
  -- that it accepts.
  pub scale_warm_pool_lem :
      (ns : String) (replicas : ℕ) (w : W)
      → (scale_warm_pool c ns replicas w).0 ≡ ok tt
      → (d : Deployment) × (stored w ns warm_pool ≡ some d)
        × (stored (scale_warm_pool c ns replicas w).1 ns warm_pool
            ≡ some (record d { replicas = replicas }))
  unfolding scale_warm_pool
  scale_warm_pool_lem ns replicas w e =
      let found = c.cs.get_deployment ns warm_pool in
      elim (Result-cases (found w).0) [
        | inr (x, p) ↦ absurd (ground arith)
        | inl (d, p) ↦
            let (there, named) = h.got ns warm_pool w d p in
            let d' : Deployment = record d { replicas = replicas } in
            let kept = h.updated ns d' (found w).1 (ground arith) in
            let last : (scale_warm_pool c ns replicas w).1
                ≡ (c.cs.update_deployment ns d' (found w).1).1 =
              ground arith in
            (
              d,
              there,
              subst (λ n. stored (scale_warm_pool c ns replicas w).1 ns n ≡ some d') named
                  (ap (λ v. stored v ns d.name) last ∙ kept),
            )
      ]
