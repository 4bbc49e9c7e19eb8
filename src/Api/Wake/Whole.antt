-- ===== src/Api/Wake/Whole.antt =====
-- A whole wake leaves alone a view of the world that none of its calls touches.
use agentic_tenancy.Base.{
  ℕ, String, ◌≡◌, true, false, Option, some, arith, Result-cases, Option-cases, inl, inr,
}
use agentic_tenancy.Registry.{TenantRecord}
use agentic_tenancy.Kube.Objects.{KubeClient}
use agentic_tenancy.Kube.Laws.{KubeFrames}
use agentic_tenancy.Services.{Frames}
use agentic_tenancy.Api.{Handler}
use agentic_tenancy.Api.Wake.{running_ip, provision, wake_slowly, wake_with, wake_or_get, wake}
use agentic_tenancy.Api.Wake.Frames.{
  ClockFrames, RegistryFrames, provision-Frames, poll_until_running-Frames,
}

module _ {W V : Type 0} (h : Handler W) (view : W → V) (clock : ClockFrames h.clock view)
    (k8s : KubeClient W) (kube : KubeFrames k8s.cs view) (reg : RegistryFrames h.reg view)
    (acquires : (id : String) (ttl : ℕ) → Frames view (h.lock.acquire_wake_lock id ttl))
    (releases : (id : String) → Frames view (h.lock.release_wake_lock id)) where
  wake_slowly-frame :
      (id : String) (o : Option TenantRecord) (w : W) → view (wake_slowly h k8s id o w).1 ≡ view w
  unfolding wake_slowly
  wake_slowly-frame id o w =
      let (acquired, w1) = h.lock.acquire_wake_lock id h.cfg.wake_lock_ttl w in
      let w2 = (provision h k8s id o w1).1 in
      let taken = (acquires id h.cfg.wake_lock_ttl).at w in
      elim (Result-cases acquired) [
        | inr (x, e) ↦ ground (arith, taken)
        | inl (false, e) ↦
            ground (arith, taken, (poll_until_running-Frames h view clock reg.gets id).at w1)
        | inl (true, e) ↦ ground (
          arith,
          taken,
          (provision-Frames h view clock k8s kube reg id o).at w1,
          (releases id).at w2,
        )
      ]

  wake_with-frame : (id : String) (w : W) → view (wake_with h k8s id w).1 ≡ view w
  unfolding wake_with
  wake_with-frame id w =
      let (found, w1) = h.reg.get_tenant id w in
      let read = (reg.gets id).at w in
      elim (Result-cases found) [
        | inr (x, e) ↦ ground (arith, read)
        | inl (o, e) ↦ elim (Option-cases (running_ip o)) [
          | inl f ↦ ground (arith, read, wake_slowly-frame id o w1)
          | inr (ip, f) ↦ ground (arith, read)
        ]
      ]

  pub wake-Frames : h.k8s ≡ some k8s → (id : String) → Frames view (wake h id)
  unfolding wake wake_or_get
  wake-Frames present id = record { at = λ w. ground (arith, wake_with-frame id w) }
