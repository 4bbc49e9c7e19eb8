-- ===== src/Api/Wake/Workers/Runs.antt =====
-- A worker that nothing interrupts does what `wakeOrGet` does.
use agentic_tenancy.Base.{
  String, ◌≡◌, ◌↔◌, refl, sym, ◌∙◌, subst, Bool, true, false, Option, some, arith, Option-cases,
  inl, inr, Result-cases,
}
use agentic_tenancy.Registry.{TenantRecord}
use agentic_tenancy.Kube.Objects.{KubeClient}
use agentic_tenancy.Api.{Handler}
use agentic_tenancy.Api.Wake.{
  running_ip, provision, poll_until_running, wake_slowly, wake_with, wake_or_get,
}
use agentic_tenancy.Api.Wake.Workers.{
  Place, resting, reading, waiting, leaving, acquiring, holding, Move,
}

abbrev is_active : Place → Bool
is_active resting = false
is_active _ = true

module _ {W : Type 0} (h : Handler W) (k8s : KubeClient W) where
  -- The moves of a worker from a place to its first rest.
  pub data Run : W → Place → W → Type 0 where
    rests : {w w' : W} {p : Place} → Move h k8s w p w' resting → is_active p ≡ true → Run w p w'
    goes_on :
        {w1 w2 w3 : W} {p q : Place}
        → Move h k8s w1 p w2 q
        → is_active p ≡ true
        → is_active q ≡ true
        → Run w2 q w3
        → Run w1 p w3

  -- The world that the rest of the code leaves, from a place on.
  left : Place → W → W
  left resting w = w
  left (reading id) w = (wake_with h k8s id w).1
  left (acquiring id found) w = (wake_slowly h k8s id found w).1
  left (holding id found) w = (h.lock.release_wake_lock id (provision h k8s id found w).1).1
  left (leaving id) w = (h.lock.release_wake_lock id w).1
  left (waiting id) w = (poll_until_running h id w).1

  Move-left :
      {w w' : W} {p q : Place} → Move h k8s w p w' q → is_active p ≡ true → left p w ≡ left q w'
  unfolding left wake_slowly wake_with
  Move-left (Move.calls w id) e = cc
  Move-left (Move.reads_none w id x failed) e = ground arith
  Move-left (Move.reads_running w id ip found read runs) e = ground arith
  Move-left (Move.reads_stopped w id found read stopped) e = ground arith
  Move-left (Move.acquires w id found won) e = ground arith
  Move-left (Move.is_refused w id found lost) e = ground arith
  Move-left (Move.fails w id found x failed) e = ground arith
  Move-left (Move.provisions w id found) e = refl
  Move-left (Move.releases w id) e = refl
  Move-left (Move.waits w id) e = refl

  Run-left : {w w' : W} {p : Place} → Run w p w' → w' ≡ left p w
  unfolding left
  Run-left (rests m e) = sym (Move-left m e)
  Run-left (goes_on m e e' r) = Run-left r ∙ sym (Move-left m e)

  leaving-Run : (id : String) (w : W) → Run w (leaving id) (left (leaving id) w)
  unfolding left
  leaving-Run id w = rests (Move.releases w id) refl

  holding-Run :
      (id : String) (found : Option TenantRecord) (w : W)
      → Run w (holding id found) (left (holding id found) w)
  unfolding left
  holding-Run id found w =
      goes_on (Move.provisions w id found) refl refl (leaving-Run id (provision h k8s id found w).1)

  acquiring-Run :
      (id : String) (found : Option TenantRecord) (w : W)
      → Run w (acquiring id found) (left (acquiring id found) w)
  unfolding left
  acquiring-Run id found w =
      elim (Result-cases (h.lock.acquire_wake_lock id h.cfg.wake_lock_ttl w).0) [
        | inl (true, e) ↦
            let m = Move.acquires w id found e in
            subst (λ w'. Run w (acquiring id found) w') (sym (Move-left m refl))
              (goes_on m refl refl (holding-Run id found _))
        | inl (false, e) ↦
            let m = Move.is_refused w id found e in
            subst (λ w'. Run w (acquiring id found) w') (sym (Move-left m refl))
              (goes_on m refl refl (rests (Move.waits _ id) refl))
        | inr (x, e) ↦
            let m = Move.fails w id found x e in
            subst (λ w'. Run w (acquiring id found) w') (sym (Move-left m refl)) (rests m refl)
      ]

  reading-Run : (id : String) (w : W) → Run w (reading id) (left (reading id) w)
  unfolding left
  reading-Run id w = elim (Result-cases (h.reg.get_tenant id w).0) [
    | inr (x, e) ↦
        let m = Move.reads_none w id x e in
        subst (λ w'. Run w (reading id) w') (sym (Move-left m refl)) (rests m refl)
    | inl (found, e) ↦ elim (Option-cases (running_ip found)) [
      | inr (ip, runs) ↦
          let m = Move.reads_running w id ip found e runs in
          subst (λ w'. Run w (reading id) w') (sym (Move-left m refl)) (rests m refl)
      | inl stopped ↦
          let m = Move.reads_stopped w id found e stopped in
          subst (λ w'. Run w (reading id) w') (sym (Move-left m refl))
            (goes_on m refl refl (acquiring-Run id found _))
    ]
  ]

  -- A worker that has been called for a tenant can reach its rest, with nothing in between, in one world
  -- and in no other: the world that `wakeOrGet` leaves, where there is Kubernetes.
  pub wake_or_get-Run :
      h.k8s ≡ some k8s
      → (id : String) (w w' : W) → Run w (reading id) w' ↔ (w' ≡ (wake_or_get h id w).1)
  unfolding wake_or_get left
  wake_or_get-Run present id w w' =
      let same : (wake_or_get h id w).1 ≡ (wake_with h k8s id w).1 = ground (arith, present) in
      (
        λ r. Run-left r ∙ sym same,
        λ e. subst (λ v. Run w (reading id) v) (sym (e ∙ same)) (reading-Run id w),
      )
