-- ===== src/Api/Wake/Workers/Exclusion.antt =====
-- No two workers provision one tenant.
use agentic_tenancy.Base.{
  ℕ, String, ◌≡◌, refl, ap, Bool, true, false, arith, ◌==◌, nat_eq, Bool-cases, inl, inr, eq_iff,
  string_eq, ◌∙◌, if◌then◌else◌, Result-cases,
}
use agentic_tenancy.Kube.Objects.{KubeClient}
use agentic_tenancy.Kube.Laws.{KubeFrames}
use agentic_tenancy.Lock.Laws.{IsLocker, Same, Marks}
use agentic_tenancy.Api.{Handler}
use agentic_tenancy.Api.Wake.Frames.{
  ClockFrames, RegistryFrames, provision-Frames, poll_until_running-Frames,
}
use agentic_tenancy.Api.Wake.Workers.{Place, leaving, holding, update, Move, System, Step, Reach}

-- Whether the worker has the wake lock of a tenant.
abbrev pub has_lock : String → Place → Bool
has_lock id (holding j _) = j == id
has_lock id (leaving j) = j == id
has_lock id _ = false

has_lock-update :
    (id : String) (f : ℕ → Place) (k j : ℕ) (p : Place)
    → has_lock id (update f k p j) ≡ (if k == j then has_lock id p else has_lock id (f j))
has_lock-update id f k j p = elim (Bool-cases (k == j)) [
  | inl e ↦ ground arith
  | inr e ↦ ground arith
]

-- What a step of one worker does to the locks, and to what it has of them: no lock is lost, it takes a
-- free lock, or it gives its lock back or fails to.
data Effect (before : String → Bool) (p : Place) (after : String → Bool) (q : Place) : Type 0 where
  keeps :
      ((j : String) → before j ≡ true → after j ≡ true)
      → ((j : String) → has_lock j q ≡ has_lock j p)
      → Effect before p after q
  takes :
      (id : String)
      → before id ≡ false
      → Marks before id true after
      → ((j : String) → has_lock j p ≡ false)
      → ((j : String) → has_lock j q ≡ (id == j))
      → Effect before p after q
  gives :
      (id : String)
      → ((j : String) → (id == j) ≡ false → after j ≡ before j)
      → ((j : String) → has_lock j p ≡ (id == j))
      → ((j : String) → has_lock j q ≡ false)
      → Effect before p after q

kept :
    {before after : String → Bool} {p q : Place}
    → Same before after
    → ((j : String) → has_lock j q ≡ has_lock j p)
    → Effect before p after q
kept same has = keeps (λ j h. same j ∙ h) has

-- Who has a lock holds it, and has it alone.
record Inv (locks : String → Bool) (place : ℕ → Place) : Type 0 where
  holds : (k : ℕ) (id : String) → has_lock id (place k) ≡ true → locks id ≡ true
  alone :
      (k j : ℕ) (id : String) → has_lock id (place k) ≡ true → has_lock id (place j) ≡ true → k ≡ j

Effect-Inv :
    {before after : String → Bool} {place : ℕ → Place} (k : ℕ) {q : Place}
    → Effect before (place k) after q
    → Inv before place
    → Inv after (update place k q)
Effect-Inv {place = place} k {q = q} (keeps same has) inv = record {
  holds =
      λ j id e. ground (arith, e, same id, has id, has_lock-update id place k j q, inv.holds j id);
  alone = λ i j id e e'. ground (
    arith,
    has id,
    has_lock-update id place k i q,
    has_lock-update id place k j q,
    inv.alone i j id,
  );
}
Effect-Inv {place = place} k {q = q} (takes new free marks had has) inv = record {
  holds =
      λ j id e. ground (arith, marks id, has id, has_lock-update id place k j q, inv.holds j id);
  alone = λ i j id e e'. ground (
    arith,
    has id,
    eq_iff new id,
    has_lock-update id place k i q,
    has_lock-update id place k j q,
    inv.alone i j id,
    inv.holds i id,
    inv.holds j id,
  );
}
Effect-Inv {place = place} k {q = q} (gives old others had has) inv = record {
  holds = λ j id e. ground (
    arith,
    others id,
    has id,
    had id,
    has_lock-update id place k j q,
    inv.holds j id,
    inv.alone j k id,
  );
  alone = λ i j id e e'. ground (
    arith,
    has id,
    has_lock-update id place k i q,
    has_lock-update id place k j q,
    inv.alone i j id,
  );
}

module _ {W : Type 0} (h : Handler W) (held : W → String → Bool) (locker : IsLocker h.lock held)
    (clock : ClockFrames h.clock held) (reg : RegistryFrames h.reg held) (k8s : KubeClient W)
    (kube : KubeFrames k8s.cs held) where
  release_others :
      (id : String) (w : W) (j : String)
      → (id == j) ≡ false
      → held (h.lock.release_wake_lock id w).1 j ≡ held w j
  release_others id w j other = elim (Result-cases (h.lock.release_wake_lock id w).0) [
    | inl (u, e) ↦ ground (arith, locker.released id w e j)
    | inr (x, e) ↦ elim (locker.release_failed id w x e) [
      | inl same ↦ same j
      | inr marks ↦ ground (arith, marks j)
    ]
  ]

  Move-Effect : {w w' : W} {p q : Place} → Move h k8s w p w' q → Effect (held w) p (held w') q
  Move-Effect (Move.calls w id) = kept (λ j. refl) (λ j. refl)
  Move-Effect (Move.reads_none w id e failed) =
      kept (λ j. ap (λ f. f j) ((reg.gets id).at w)) (λ j. refl)
  Move-Effect (Move.reads_running w id ip found read runs) =
      kept (λ j. ap (λ f. f j) ((reg.gets id).at w)) (λ j. refl)
  Move-Effect (Move.reads_stopped w id found read stopped) =
      kept (λ j. ap (λ f. f j) ((reg.gets id).at w)) (λ j. refl)
  Move-Effect (Move.acquires w id found won) =
      let (free, marks) = locker.acquired id h.cfg.wake_lock_ttl w won in
      takes id free marks (λ j. refl) (λ j. refl)
  Move-Effect (Move.is_refused w id found lost) =
      kept (locker.refused id h.cfg.wake_lock_ttl w lost).1 (λ j. refl)
  Move-Effect (Move.fails w id found e failed) =
      elim (locker.acquire_failed id h.cfg.wake_lock_ttl w e failed) [
        | inl same ↦ kept same (λ j. refl)
        | inr (free, marks) ↦ keeps (λ j h. ground (arith, marks j)) (λ j. refl)
      ]
  Move-Effect (Move.provisions w id found) =
      kept (λ j. ap (λ f. f j) ((provision-Frames h held clock k8s kube reg id found).at w))
        (λ j. refl)
  Move-Effect (Move.releases w id) = gives id (release_others id w) (λ j. refl) (λ j. refl)
  Move-Effect (Move.waits w id) =
      kept (λ j. ap (λ f. f j) ((poll_until_running-Frames h held clock reg.gets id).at w))
        (λ j. refl)

  Step-Inv :
      {s t : System h k8s}
      → Step h k8s held s t
      → Inv (held s.world) s.place
      → Inv (held t.world) t.place
  Step-Inv (Step.outside w same) inv = record {
    holds = λ k id e. same id ∙ inv.holds k id e;
    alone = inv.alone;
  }
  Step-Inv (Step.move k m) inv = Effect-Inv k (Move-Effect m) inv

  Reach-Inv : {w : W} {s : System h k8s} → Reach h k8s held w s → Inv (held s.world) s.place
  Reach-Inv Reach.start = record { holds = λ k id e. cc; alone = λ k j id e e'. cc }
  Reach-Inv (Reach.later r step) = Step-Inv step (Reach-Inv r)

  -- However the steps of any number of wakes are interleaved, two workers never have the wake lock of
  -- one tenant: they do not provision it at the same time. No key expires, the locker keeps its
  -- promises, and the clock, the registry and Kubernetes do not touch the locks.
  pub workers_exclude :
      {w : W} {s : System h k8s}
      → Reach h k8s held w s
      → (k j : ℕ) (id : String) → has_lock id (s.place k) ≡ true
      → has_lock id (s.place j) ≡ true
      → k ≡ j
  workers_exclude r = (Reach-Inv r).alone
