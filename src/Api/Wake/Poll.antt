-- ===== src/Api/Wake/Poll.antt =====
-- The wait for another replica: it ends by itself, and what it returns was registered.
use agentic_tenancy.Base.{
  ℕ, zero, suc, ◌+◌, ◌*◌, ◌/◌, ◌≤◌, String, ◌≡◌, ◌≢◌, refl, Option, none, some, ok, err,
  out_of_fuel, eq_iff, subst, sym, ap, ◌∙◌, arith, Result-cases, Option-cases, Bool-cases, inl, inr,
  ltb,
}
use agentic_tenancy.Registry.{TenantRecord, running, same_status_iff}
use agentic_tenancy.Services.{Clock}
use agentic_tenancy.Api.{Handler}
use agentic_tenancy.Api.Wake.{running_ip, poll_interval, poll_loop, poll_until_running}

-- Time, as the process sees it: a reading returns it, a pause that runs to its end takes at least
-- its length, and no call takes it back. A pause that is cut short has an error of its context's.
pub record ClockAdvances {W : Type 0} (clock : Clock W) (time : W → ℕ) : Type 0 where
  pub reads : (w : W) → ((clock.now w).0 ≡ time w) × (time w ≤ time (clock.now w).1)
  pub pauses : (d : ℕ) (w : W) → (clock.pause d w).0 ≡ ok tt → time w + d ≤ time (clock.pause d w).1
  pub cut_short : (d : ℕ) (w : W) → (clock.pause d w).0 ≢ err out_of_fuel

module _ {W : Type 0} (h : Handler W) (time : W → ℕ) (clock : ClockAdvances h.clock time)
    (gets : (id : String) (w : W) → time w ≤ time (h.reg.get_tenant id w).1) where
  poll_loop_ends :
      (fuel deadline : ℕ) (id : String) (w : W)
      → deadline ≤ time w + fuel * poll_interval h
      → (poll_loop h (suc fuel) deadline id w).0 ≢ err out_of_fuel
  unfolding poll_loop
  poll_loop_ends zero deadline id w room = ground (arith, clock.reads w)
  poll_loop_ends (suc fuel) deadline id w room =
      let w1 = (h.clock.now w).1 in
      let w2 = (h.clock.pause (poll_interval h) w1).1 in
      let w3 = (h.reg.get_tenant id w2).1 in
      ground (
        arith,
        clock.reads w,
        clock.pauses (poll_interval h) w1,
        clock.cut_short (poll_interval h) w1,
        gets id w2,
        poll_loop_ends fuel deadline id w3,
      )

  -- The wait for another replica always ends with a result of the program's own: a running pod's
  -- IP, the context's error or the timeout. The rounds that the model allows are never used up. A
  -- pause that runs to its end takes at least its length, and time does not run backwards.
  pub poll_until_running_ends :
      (id : String) (w : W) → (poll_until_running h id w).0 ≢ err out_of_fuel
  unfolding poll_until_running
  poll_until_running_ends id w =
      let (t, w1) = h.clock.now w in
      poll_loop_ends (suc (h.cfg.wake_lock_ttl / poll_interval h)) (t + h.cfg.wake_lock_ttl) id w1
        (omega (arith, clock.reads w))

module _ {W : Type 0} (h : Handler W) where
  -- A read of the tenant that left the world `last` returned a record that is running at `ip`.
  abbrev pub FoundRunning : String → String → W → Type 0
  FoundRunning id ip last =
      (w1 : W) × (o : Option TenantRecord) × (h.reg.get_tenant id w1 ≡ (ok o, last))
      × (running_ip o ≡ some ip)

  poll_loop_sound :
      (fuel deadline : ℕ) (id : String) (w : W) (ip : String)
      → (poll_loop h fuel deadline id w).0 ≡ ok ip
      → FoundRunning id ip (poll_loop h fuel deadline id w).1
  unfolding poll_loop
  poll_loop_sound zero deadline id w ip e = absurd (ground arith)
  poll_loop_sound (suc fuel) deadline id w ip e =
      let (t, w1) = h.clock.now w in
      let (paused, w2) = h.clock.pause (poll_interval h) w1 in
      let (reply, w3) = h.reg.get_tenant id w2 in
      let again = λ (same : poll_loop h (suc fuel) deadline id w ≡ poll_loop h fuel deadline id w3).
        subst (λ x. FoundRunning id ip x.1) (sym same)
          (poll_loop_sound fuel deadline id w3 ip (ap (λ x. x.0) (sym same) ∙ e)) in
      elim (Bool-cases (ltb t deadline)) [
        | inr late ↦ absurd (ground arith)
        | inl early ↦ elim (Result-cases paused) [
          | inr p ↦ absurd (ground arith)
          | inl p ↦ elim (Result-cases reply) [
            | inr r ↦ again (ground arith)
            | inl (o, r) ↦ elim (Option-cases (running_ip o)) [
              | inl q ↦ again (ground arith)
              | inr (v, q) ↦ (w2, o, ground arith, ground arith)
            ]
          ]
        ]
      ]

  -- What such a record holds.
  pub running_ip_lem :
      (o : Option TenantRecord) (ip : String)
      → running_ip o ≡ some ip
      → (r : TenantRecord) × (o ≡ some r) × (r.status ≡ running) × (r.pod_ip ≡ ip) × (ip ≢ "")
  running_ip_lem none ip e = absurd (ground arith)
  running_ip_lem (some r) ip e = (
    r,
    refl,
    (same_status_iff r.status running).0 (ground arith),
    ground arith,
    λ empty. ground (arith, eq_iff r.pod_ip ""),
  )

  -- An IP that the wait returns comes from its last read of the tenant, which returned a record
  -- with the status running and that IP, not empty.
  pub poll_until_running_sound :
      (id : String) (w : W) (ip : String)
      → (poll_until_running h id w).0 ≡ ok ip
      → (w1 : W) × (r : TenantRecord) × (h.reg.get_tenant id w1
          ≡ (ok (some r), (poll_until_running h id w).1))
        × (r.status ≡ running)
        × (r.pod_ip ≡ ip)
        × (ip ≢ "")
  unfolding poll_until_running
  poll_until_running_sound id w ip e =
      let (w1, o, got, found) = poll_loop_sound _ _ id (h.clock.now w).1 ip e in
      let (r, is_r, runs, at, full) = running_ip_lem o ip found in
      (w1, r, rw (← is_r) got, runs, at, full)
