-- ===== src/Api/Wake/Workers.antt =====
-- internal/api/handler.go: wakes that run at the same time, in one process or in several, as
-- workers over one world. A worker's wake is cut into the calls that the lock divides.
pub mod Exclusion
pub mod Runs
use agentic_tenancy.Base.{
  ℕ, String, ◌≡◌, ◌≢◌, Bool, true, false, Option, none, some, Error, Result, ok, err, ◌==◌, nat_eq,
  if◌then◌else◌,
}
use agentic_tenancy.Registry.{TenantRecord}
use agentic_tenancy.Kube.Objects.{KubeClient}
use agentic_tenancy.Lock.Laws.{Same}
use agentic_tenancy.Api.{Handler}
use agentic_tenancy.Api.Wake.{running_ip, provision, poll_until_running}

-- Where a worker is in `wakeOrGet` of a tenant, with the record that it has read.
pub data Place : Type 0 where
  resting : Place
  reading waiting leaving : String → Place
  acquiring holding : String → Option TenantRecord → Place

abbrev pub update : {A : Type 0} → (ℕ → A) → ℕ → A → ℕ → A
update f k a j = if k == j then a else f j

module _ {W : Type 0} (h : Handler W) (k8s : KubeClient W) where
  -- A step of one worker: the world and its place before and after.
  pub data Move : W → Place → W → Place → Type 0 where
    calls : (w : W) (id : String) → Move w resting w (reading id)
    reads_none :
        (w : W) (id : String) (e : Error)
        → (h.reg.get_tenant id w).0 ≡ err e
        → Move w (reading id) (h.reg.get_tenant id w).1 resting
    reads_running :
        (w : W) (id ip : String) (found : Option TenantRecord)
        → (h.reg.get_tenant id w).0 ≡ ok found
        → running_ip found ≡ some ip
        → Move w (reading id) (h.reg.get_tenant id w).1 resting
    reads_stopped :
        (w : W) (id : String) (found : Option TenantRecord)
        → (h.reg.get_tenant id w).0 ≡ ok found
        → running_ip found ≡ none
        → Move w (reading id) (h.reg.get_tenant id w).1 (acquiring id found)
    acquires :
        (w : W) (id : String) (found : Option TenantRecord)
        → (h.lock.acquire_wake_lock id h.cfg.wake_lock_ttl w).0 ≡ ok true
        → Move w
            (acquiring id found)
            (h.lock.acquire_wake_lock id h.cfg.wake_lock_ttl w).1
            (holding id found)
    is_refused :
        (w : W) (id : String) (found : Option TenantRecord)
        → (h.lock.acquire_wake_lock id h.cfg.wake_lock_ttl w).0 ≡ ok false
        → Move w
            (acquiring id found)
            (h.lock.acquire_wake_lock id h.cfg.wake_lock_ttl w).1
            (waiting id)
    fails :
        (w : W) (id : String) (found : Option TenantRecord) (e : Error)
        → (h.lock.acquire_wake_lock id h.cfg.wake_lock_ttl w).0 ≡ err e
        → Move w (acquiring id found) (h.lock.acquire_wake_lock id h.cfg.wake_lock_ttl w).1 resting
    provisions :
        (w : W) (id : String) (found : Option TenantRecord)
        → Move w (holding id found) (provision h k8s id found w).1 (leaving id)
    releases : (w : W) (id : String) → Move w (leaving id) (h.lock.release_wake_lock id w).1 resting
    waits : (w : W) (id : String) → Move w (waiting id) (poll_until_running h id w).1 resting

  -- Any number of workers over one world.
  pub record System : Type 0 where
    pub world : W
    pub place : ℕ → Place

  module _ (held : W → String → Bool) where
    -- A worker moves, or something else changes the world, but no wake lock: another handler, or
    -- a call within a worker's longer step.
    pub data Step (s : System) : System → Type 0 where
      move :
          (k : ℕ) {w : W} {p : Place}
          → Move s.world (s.place k) w p
          → Step s (record { world = w; place = update s.place k p })
      outside :
          (w : W) → Same (held s.world) (held w) → Step s (record { world = w; place = s.place })

    -- The systems that come from one in which all workers rest.
    pub data Reach (w : W) : System → Type 0 where
      start : Reach w (record { world = w; place = λ k. resting })
      later : {s t : System} → Reach w s → Step s t → Reach w t
