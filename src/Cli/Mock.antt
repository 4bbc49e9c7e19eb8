-- ===== src/Cli/Mock.antt =====
-- internal/cli/api/mock.go: the client of the commands' tests. A nil pointer is `none`.
use agentic_tenancy.Base.{String, Option, none, some, List, [], Result, ok, Action, pure}
use agentic_tenancy.Cli.Types.{Tenant, CreateTenantRequest, UpdateTenantRequest, WebhookResponse}

-- `MockClient`: a function that is not set is `none`.
pub record MockClient (W : Type 0) : Type 0 where
  pub create_tenant_func : Option (CreateTenantRequest → Action W (Result (Option Tenant)))
  pub delete_tenant_func : Option (String → Action W (Result (Unit {0})))
  pub list_tenants_func : Option (Action W (Result (List Tenant)))
  pub get_tenant_func : Option (String → Action W (Result (Option Tenant)))
  pub update_tenant_func : Option (String → UpdateTenantRequest → Action W (Result (Option Tenant)))
  pub register_webhook_func : Option (String → Action W (Result (Option WebhookResponse)))

module _ {W : Type 0} (m : MockClient W) where
  abbrev create_tenant : CreateTenantRequest → Action W (Result (Option Tenant))
  create_tenant req = elim m.create_tenant_func [ some f ↦ f req | none ↦ pure (ok none) ]

  abbrev delete_tenant : String → Action W (Result (Unit {0}))
  delete_tenant id = elim m.delete_tenant_func [ some f ↦ f id | none ↦ pure (ok tt) ]

  abbrev list_tenants : Action W (Result (List Tenant))
  list_tenants = elim m.list_tenants_func [ some f ↦ f | none ↦ pure (ok []) ]

  abbrev get_tenant : String → Action W (Result (Option Tenant))
  get_tenant id = elim m.get_tenant_func [ some f ↦ f id | none ↦ pure (ok none) ]

  abbrev update_tenant : String → UpdateTenantRequest → Action W (Result (Option Tenant))
  update_tenant id req = elim m.update_tenant_func [ some f ↦ f id req | none ↦ pure (ok none) ]

  abbrev register_webhook : String → Action W (Result (Option WebhookResponse))
  register_webhook tenant_id = elim m.register_webhook_func [
    | some f ↦ f tenant_id
    | none ↦ pure (ok none)
  ]
