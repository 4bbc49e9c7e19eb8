-- ===== src/Registry.antt =====
-- internal/registry/registry.go: the tenant record and the `Client` interface. The handlers, the
-- lifecycle controller and the reconciler see a registry only through this interface.
pub mod Laws
pub mod Mock
pub mod Passes
pub mod Dynamo
use agentic_tenancy.Base.{
  ℕ, String, Bool, true, false, Option, List, Result, Action, Eq, ◌≡◌, ◌↔◌, ap, sym, ◌∙◌, ◌==◌,
  string_eq, ==-refl, eq_of_==,
}
use agentic_tenancy.Base.Int64.{Int64}

-- `TenantStatus`: any text, also the empty one.
pub record TenantStatus : Type 0 where
  pub text : String

abbrev pub provisioning : TenantStatus
provisioning = record { text = "provisioning" }

abbrev pub running : TenantStatus
running = record { text = "running" }

abbrev pub idle : TenantStatus
idle = record { text = "idle" }

abbrev pub terminated : TenantStatus
terminated = record { text = "terminated" }

abbrev pub status_text : TenantStatus → String
status_text status = status.text

abbrev pub same_status : TenantStatus → TenantStatus → Bool
same_status a b = a.text == b.text

pub same_status_iff : (a b : TenantStatus) → (same_status a b ≡ true) ↔ (a ≡ b)
same_status_iff a b = (
  λ e. ap (λ t. record { text = t }) (eq_of_== a.text b.text e),
  λ e. ap (λ s. same_status a s) (sym e) ∙ ==-refl a.text,
)

instance abbrev pub status_eq : Eq TenantStatus
status_eq = record { beq = same_status }

-- `CreatedAt` and `LastActiveAt` are instants, in nanoseconds.
pub record TenantRecord : Type 0 where
  pub tenant_id : String
  pub status : TenantStatus
  pub pod_name : String
  pub pod_ip : String
  pub namespace : String
  pub s3_prefix : String
  pub bot_token : String
  pub created_at : ℕ
  pub last_active_at : ℕ
  pub idle_timeout_s : Int64

-- The `Client` interface. `GetTenant` of a missing tenant is `ok none`: `nil, nil` in the source.
pub record RegistryClient (W : Type 0) : Type 0 where
  pub get_tenant : String → Action W (Result (Option TenantRecord))
  pub create_tenant : TenantRecord → Action W (Result (Unit {0}))
  pub update_status : String → TenantStatus → String → String → Action W (Result (Unit {0}))
  pub update_activity : String → Action W (Result (Unit {0}))
  pub update_bot_token : String → String → Action W (Result (Unit {0}))
  pub update_idle_timeout : String → Int64 → Action W (Result (Unit {0}))
  pub list_all : Action W (Result (List TenantRecord))
  pub list_by_status : TenantStatus → Action W (Result (List TenantRecord))
  pub list_idle_tenants : ℕ → Action W (Result (List TenantRecord))
  pub delete_tenant : String → Action W (Result (Unit {0}))
