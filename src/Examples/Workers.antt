-- ===== src/Examples/Workers.antt =====
-- Two workers in the small world, both called for bob, who is idle.
use agentic_tenancy.Base.{ℕ, ◌≡◌, ◌↔◌, refl, some}
use agentic_tenancy.Base.Dict
use agentic_tenancy.Registry.Mock
use agentic_tenancy.Lock.{mock_acquire}
use agentic_tenancy.Api.Wake.{wake_or_get}
use agentic_tenancy.Api.Wake.Workers.{
  resting, reading, waiting, acquiring, holding, update, Move, System, Step, Reach,
}
use agentic_tenancy.Api.Wake.Workers.Exclusion.{workers_exclude}
use agentic_tenancy.Api.Wake.Workers.Runs.{Run, wake_or_get-Run}
use agentic_tenancy.Examples.World.{World, held, bob, start}
use agentic_tenancy.Examples.Cluster.{k8s, api-KubeFrames}
use agentic_tenancy.Examples.Wake.{handler, still, held_in, locker-IsLocker, registry_frames}

abbrev called : System handler k8s
called = record {
  world = start;
  place = update (update (λ k. resting) 0 (reading "bob")) 1 (reading "bob");
}

both_called : Reach handler k8s held start called
both_called =
    Reach.later (Reach.later Reach.start (Step.move 0 (Move.calls start "bob")))
      (Step.move 1 (Move.calls start "bob"))

abbrev read : System handler k8s
read = record {
  world = start;
  place =
      update (update called.place 0 (acquiring "bob" (some bob))) 1 (acquiring "bob" (some bob));
}

both_read : Reach handler k8s held start read
unfolding Mock.get_tenant Dict.lookup
both_read =
    Reach.later
      (Reach.later both_called (Step.move 0 (Move.reads_stopped start "bob" (some bob) refl refl)))
      (Step.move 1 (Move.reads_stopped start "bob" (some bob) refl refl))

abbrev locked : World
locked = (handler.lock.acquire_wake_lock "bob" handler.cfg.wake_lock_ttl start).1

-- The first has the lock, and the second waits.
abbrev contended : System handler k8s
contended = record {
  world = (handler.lock.acquire_wake_lock "bob" handler.cfg.wake_lock_ttl locked).1;
  place = update (update read.place 0 (holding "bob" (some bob))) 1 (waiting "bob");
}

one_has_lock : Reach handler k8s held start contended
unfolding mock_acquire Dict.lookup Dict.insert
one_has_lock =
    Reach.later (Reach.later both_read (Step.move 0 (Move.acquires start "bob" (some bob) refl)))
      (Step.move 1 (Move.is_refused locked "bob" (some bob) refl))

workers_exclude_example : ◌≡◌ {A = ℕ} 0 0
workers_exclude_example =
    workers_exclude handler held locker-IsLocker (still held_in) registry_frames k8s
      (api-KubeFrames held_in) one_has_lock 0 0 "bob" refl refl

wake_or_get-Run_example :
    Run handler k8s start (reading "bob") (wake_or_get handler "bob" start).1
    ↔ ((wake_or_get handler "bob" start).1 ≡ (wake_or_get handler "bob" start).1)
wake_or_get-Run_example =
    wake_or_get-Run handler k8s refl "bob" start (wake_or_get handler "bob" start).1
