-- ===== src/Lifecycle.antt =====
-- internal/lifecycle/lifecycle.go: the controller that stops idle tenants, where it leads.
pub mod Idle
pub mod Timeout
pub mod Progress
use Prim.Native.Nat.{min}
use agentic_tenancy.Base.{
  ℕ, ◌-◌, ◌*◌, ◌^◌, String, Bool, true, false, Option, List, [], ◌∷◌, Result, ok, err, Action, pure,
  ◌>>=◌, ◌>>◌, ◌==◌, nat_eq, leb, if◌then◌else◌,
}
use agentic_tenancy.Base.Int64.{Int64, mul, signed_lt, negate, sign_bit}
use agentic_tenancy.Registry.{TenantRecord, RegistryClient, idle}
use agentic_tenancy.Kube.Objects.{KubeClient}
use agentic_tenancy.Kube.Pods.{second, delete_pod}
use agentic_tenancy.Services.{Clock}
use agentic_tenancy.Ticker.{Signal, run_loop}

-- `leaderelection.LeaderElectionConfig` with its lock, less the callbacks. Durations are in
-- nanoseconds.
pub record LeaseConfig : Type 0 where
  pub name : String
  pub namespace : String
  pub identity : String
  pub release_on_cancel : Bool
  pub lease_duration : ℕ
  pub renew_deadline : ℕ
  pub retry_period : ℕ

-- `leaderelection.RunOrDie` over the leases of a clientset, with the callback `OnStartedLeading`,
-- which takes the signals that its loop receives. The other callbacks only log.
pub record Leases (W : Type 0) : Type 0 where
  pub run_or_die : LeaseConfig → (List Signal → Action W (Unit {0})) → Action W (Unit {0})

-- `Controller`; the clock is the process's.
pub record Controller (W : Type 0) : Type 0 where
  pub reg : RegistryClient W
  pub k8s : KubeClient W
  pub cs : Leases W
  pub namespace : String
  pub leader_id : String
  pub clock : Clock W

-- `New`
abbrev pub new :
    {W : Type 0}
    → Clock W
    → RegistryClient W
    → KubeClient W
    → Leases W
    → String
    → String
    → Controller W
new clock reg k8s cs namespace leader_id = record {
  reg = reg;
  k8s = k8s;
  cs = cs;
  namespace = namespace;
  leader_id = leader_id;
  clock = clock;
}

abbrev pub default_idle : ℕ
default_idle = 300 * second

-- `time.Since(t)`: the difference, saturated to the range of a duration.
unfoldable pub since : ℕ → ℕ → Int64
since now t = if leb t now then min (now - t) (sign_bit - 1) else negate (min (t - now) sign_bit)

-- `time.Duration(t.IdleTimeoutS) * time.Second` wraps around; 0 stands for the default.
unfoldable pub timeout_of : TenantRecord → Int64
timeout_of t = let d = mul t.idle_timeout_s second in if d == 0 then default_idle else d

unfoldable pub is_expired : ℕ → TenantRecord → Bool
unfolding since timeout_of
is_expired now t = if signed_lt (since now t.last_active_at) (timeout_of t) then false else true

module _ {W : Type 0} (c : Controller W) where
  -- The pod goes first. Only if that worked is the status set.
  unfoldable pub stop_tenant : TenantRecord → Action W (Unit {0})
  stop_tenant t = delete_pod c.k8s t.pod_name t.namespace 30 >>= λ deleted. elim deleted [
    | err _ ↦ pure tt
    | ok tt ↦ (c.reg.update_status t.tenant_id idle "" "" >> pure tt)
  ]

  -- One round of the loop of `checkIdleTenants`.
  unfoldable pub check_tenant : TenantRecord → Action W (Unit {0})
  check_tenant t =
      c.clock.now >>= λ now. elim (is_expired now t) [ false ↦ pure tt | true ↦ stop_tenant t ]

  unfoldable pub check_all : List TenantRecord → Action W (Unit {0})
  check_all [] = pure tt
  check_all (t ∷ rest) = check_tenant t >> check_all rest

  unfoldable pub check_idle_tenants : Action W (Unit {0})
  check_idle_tenants = c.reg.list_idle_tenants default_idle >>= λ listed. elim listed [
    | err _ ↦ pure tt
    | ok tenants ↦ check_all tenants
  ]

  unfoldable pub run_idle_loop : List Signal → Action W (Unit {0})
  unfolding run_loop
  run_idle_loop = run_loop check_idle_tenants

  abbrev pub lease : LeaseConfig
  lease = record {
    name = "orchestrator-leader";
    namespace = c.namespace;
    identity = c.leader_id;
    release_on_cancel = true;
    lease_duration = 15 * second;
    renew_deadline = 10 * second;
    retry_period = 2 * second;
  }

  unfoldable pub run : Action W (Unit {0})
  run = c.cs.run_or_die lease run_idle_loop
