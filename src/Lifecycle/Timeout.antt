-- ===== src/Lifecycle/Timeout.antt =====
-- When a tenant has expired.
use agentic_tenancy.Base.{
  ℕ, ◌+◌, ◌*◌, ◌<◌, ◌≤◌, ◌≡◌, ◌↔◌, ◌⊎◌, inl, inr, Bool-cases, ltb, true, arith, ◌==◌, nat_eq,
  if◌then◌else◌,
}
use agentic_tenancy.Base.Int64.{sign_bit}
use agentic_tenancy.Registry.{TenantRecord}
use agentic_tenancy.Kube.Pods.{second}
use agentic_tenancy.Lifecycle.{is_expired, since, timeout_of}

-- The timeout in seconds that the record asks for; 0 asks for five minutes.
abbrev pub asked_seconds : TenantRecord → ℕ
asked_seconds t = if t.idle_timeout_s == 0 then 300 else t.idle_timeout_s

-- Where the timeout fits an int64 of nanoseconds, which 9223372036 seconds do, and the last activity
-- is not after `now` nor more than the 292 years of a duration before it, a tenant has expired
-- exactly when the seconds that it asks for have passed since its last activity.
pub is_expired_lem :
    (now : ℕ) (t : TenantRecord)
    → t.idle_timeout_s ≤ 9223372036
    → t.last_active_at ≤ now
    → now < t.last_active_at + sign_bit
    → (is_expired now t ≡ true) ↔ (t.last_active_at + asked_seconds t * second ≤ now)
unfolding is_expired since timeout_of
is_expired_lem now t fits past near = ground arith

-- As many seconds as the record asks for have passed since its last activity, or it asks for more
-- than an int64 of nanoseconds holds for sure.
abbrev pub IsLate : ℕ → TenantRecord → Type 0
IsLate now t = (t.last_active_at + asked_seconds t * second ≤ now) ⊎ (9223372036 < t.idle_timeout_s)

pub is_expired-IsLate : (now : ℕ) (t : TenantRecord) → is_expired now t ≡ true → IsLate now t
unfolding is_expired since timeout_of
is_expired-IsLate now t e = elim (Bool-cases (ltb 9223372036 t.idle_timeout_s)) [
  | inl big ↦ inr (ground arith)
  | inr fits ↦ inl (ground (arith, e, fits))
]
