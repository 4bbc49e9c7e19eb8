-- ===== src/Cli/Types.antt =====
-- internal/cli/api/types.go and client.go: what the command line sends and receives.
use agentic_tenancy.Base.{ℕ, String, Bool, Option, List, Result, Action}
use agentic_tenancy.Base.Int64.{Int64}

-- `Tenant`. An instant is `none` where it is zero.
pub record Tenant : Type 0 where
  pub tenant_id : String
  pub status : String
  pub bot_token : String
  pub idle_timeout_s : Int64
  pub pod_name : String
  pub pod_ip : String
  pub last_active_at : Option ℕ
  pub created_at : Option ℕ

pub record CreateTenantRequest : Type 0 where
  pub tenant_id : String
  pub bot_token : String
  pub idle_timeout_s : Int64

pub record UpdateTenantRequest : Type 0 where
  pub bot_token : Option String
  pub idle_timeout_s : Option Int64

pub record WebhookResponse : Type 0 where
  pub success : Bool
  pub message : String
  pub url : String

-- The `Client` interface.
pub record ApiClient (W : Type 0) : Type 0 where
  pub create_tenant : CreateTenantRequest → Action W (Result Tenant)
  pub delete_tenant : String → Action W (Result (Unit {0}))
  pub list_tenants : Action W (Result (List Tenant))
  pub get_tenant : String → Action W (Result Tenant)
  pub update_tenant : String → UpdateTenantRequest → Action W (Result Tenant)
  pub register_webhook : String → Action W (Result WebhookResponse)
