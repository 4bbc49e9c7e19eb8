-- ===== src/Api/Wake/Locking.antt =====
-- A wake and the wake lock.
use agentic_tenancy.Base.{
  ℕ, Error, err, String, ◌≡◌, Bool, true, false, Option, some, ok, arith, Result-cases, inl, inr,
  ap, eq_iff, string_eq,
}
use agentic_tenancy.Registry.{TenantRecord}
use agentic_tenancy.Kube.Objects.{KubeClient}
use agentic_tenancy.Kube.Laws.{KubeFrames}
use agentic_tenancy.Lock.Laws.{IsLocker, Same}
use agentic_tenancy.Api.{Handler}
use agentic_tenancy.Api.Wake.{provision, poll_until_running, wake_slowly, wake_with, wake_or_get}
use agentic_tenancy.Api.Wake.Frames.{
  ClockFrames, RegistryFrames, provision-Frames, poll_until_running-Frames,
}

module _ {W : Type 0} (h : Handler W) (held : W → String → Bool) (locker : IsLocker h.lock held)
    (releases : (id : String) (w : W) → (h.lock.release_wake_lock id w).0 ≡ ok tt)
    (quiet : (id : String) (ttl : ℕ) (w : W) (e : Error)
      → (h.lock.acquire_wake_lock id ttl w).0 ≡ err e
      → Same (held w) (held (h.lock.acquire_wake_lock id ttl w).1))
    (clock : ClockFrames h.clock held) (reg : RegistryFrames h.reg held) (k8s : KubeClient W)
    (kube : KubeFrames k8s.cs held) where
  -- With the lock: it was free before, and is free again.
  locked-Same :
      (id : String) (o : Option TenantRecord) (w : W)
      → (h.lock.acquire_wake_lock id h.cfg.wake_lock_ttl w).0 ≡ ok true
      → let w1 = (h.lock.acquire_wake_lock id h.cfg.wake_lock_ttl w).1 in
        let w2 = (provision h k8s id o w1).1 in
        Same (held w) (held (h.lock.release_wake_lock id w2).1)
  locked-Same id o w e j =
      let (free, marks) = locker.acquired id h.cfg.wake_lock_ttl w e in
      let w1 = (h.lock.acquire_wake_lock id h.cfg.wake_lock_ttl w).1 in
      let w2 = (provision h k8s id o w1).1 in
      let body : held w2 j ≡ held w1 j =
        ap (λ f. f j) ((provision-Frames h held clock k8s kube reg id o).at w1) in
      ground (arith, marks j, body, locker.released id w2 (releases id w2) j, eq_iff id j)

  wake_slowly-Same :
      (id : String) (o : Option TenantRecord) (w : W)
      → Same (held w) (held (wake_slowly h k8s id o w).1)
  unfolding wake_slowly
  wake_slowly-Same id o w j =
      let (reply, w1) = h.lock.acquire_wake_lock id h.cfg.wake_lock_ttl w in
      elim (Result-cases reply) [
        | inl (true, e) ↦ ground (arith, locked-Same id o w e j)
        | inl (false, e) ↦
            let waited : held (poll_until_running h id w1).1 j ≡ held w1 j =
              ap (λ f. f j) ((poll_until_running-Frames h held clock reg.gets id).at w1) in
            ground (arith, (locker.refused id h.cfg.wake_lock_ttl w e).1 j, waited)
        | inr (x, e) ↦ ground (arith, quiet id h.cfg.wake_lock_ttl w x e j)
      ]

  wake_with-Same : (id : String) (w : W) → Same (held w) (held (wake_with h k8s id w).1)
  unfolding wake_with
  wake_with-Same id w j =
      let (reply, w1) = h.reg.get_tenant id w in
      let read : held w1 j ≡ held w j = ap (λ f. f j) ((reg.gets id).at w) in
      elim (Result-cases reply) [
        | inl (o, e) ↦ ground (arith, read, wake_slowly-Same id o w1 j)
        | inr e ↦ ground (arith, read)
      ]

  -- When a wake returns, by whichever path and with whichever error, every wake lock is held or
  -- free as it was when the wake began: its own lock has been given back, and a lock that another
  -- replica holds has not been released. Releases are taken to succeed, and a failed
  -- acquisition to have taken no lock. The locker keeps its
  -- promises, and the clock, the registry and Kubernetes do not touch the locks.
  pub wake_or_get-Same :
      h.k8s ≡ some k8s → (id : String) (w : W) → Same (held w) (held (wake_or_get h id w).1)
  unfolding wake_or_get
  wake_or_get-Same present id w j = rw (present, wake_or_get) (wake_with-Same id w j)
