-- ===== src/Cli/Client.antt =====
-- internal/cli/api/kubectl_client.go and mock.go: the two clients of the interface.
use agentic_tenancy.Base.{String, ◌<>◌, List, Result, ok, wrap, Action, pure, ◌>>=◌, on_ok}
use agentic_tenancy.Cli.Types.{
  Tenant, CreateTenantRequest, UpdateTenantRequest, WebhookResponse, ApiClient,
}
use agentic_tenancy.Cli.Kubectl.{KubectlConfig, Shell, exec_api_call}

-- `encoding/json` at the types of the client.
pub record ClientJson : Type 0 where
  pub marshal_create : CreateTenantRequest → Result String
  pub marshal_update : UpdateTenantRequest → Result String
  pub unmarshal_tenant : String → Result Tenant
  pub unmarshal_tenants : String → Result (List Tenant)
  pub unmarshal_webhook : String → Result WebhookResponse

-- `KubectlClient`, with the shell and the codec that it uses.
pub record KubectlClient (W : Type 0) : Type 0 where
  pub orchestrator_cfg : KubectlConfig
  pub router_cfg : KubectlConfig
  pub shell : Shell W
  pub json : ClientJson

-- `NewKubectlClient`
unfoldable pub new_kubectl_client :
    {W : Type 0} → Shell W → ClientJson → String → String → KubectlClient W
new_kubectl_client shell json namespace context = record {
  orchestrator_cfg = record {
    namespace = namespace;
    context = context;
    deployment = "orchestrator";
    port = 8080;
  };
  router_cfg = record {
    namespace = namespace;
    context = context;
    deployment = "router";
    port = 9090;
  };
  shell = shell;
  json = json;
}

abbrev pub tenant_path : String → String
tenant_path id = "/tenants/" <> id

module _ {W : Type 0} (c : KubectlClient W) where
  open c use {orchestrator_cfg, router_cfg, shell, json}

  -- The call, and the decoding of what it prints.
  abbrev call :
      {A : Type 0}
      → KubectlConfig
      → (String → Result A)
      → String
      → String
      → String
      → Action W (Result A)
  call cfg decode method path body =
      exec_api_call shell cfg method path body
      >>= on_ok (wrap "API call failed")
          (λ resp. on_ok (wrap "failed to parse response") (λ a. pure (ok a)) (decode resp))

  unfoldable pub create_tenant : CreateTenantRequest → Action W (Result Tenant)
  create_tenant req =
      on_ok (wrap "failed to marshal request")
        (λ body. call orchestrator_cfg json.unmarshal_tenant "POST" "/tenants" body)
        (json.marshal_create req)

  unfoldable pub delete_tenant : String → Action W (Result (Unit {0}))
  delete_tenant id =
      exec_api_call shell orchestrator_cfg "DELETE" (tenant_path id) ""
      >>= on_ok (wrap "failed to delete tenant") (λ _. pure (ok tt))

  unfoldable pub list_tenants : Action W (Result (List Tenant))
  list_tenants = call orchestrator_cfg json.unmarshal_tenants "GET" "/tenants" ""

  unfoldable pub get_tenant : String → Action W (Result Tenant)
  get_tenant id = call orchestrator_cfg json.unmarshal_tenant "GET" (tenant_path id) ""

  unfoldable pub update_tenant : String → UpdateTenantRequest → Action W (Result Tenant)
  update_tenant id req =
      on_ok (wrap "failed to marshal request")
        (λ body. call orchestrator_cfg json.unmarshal_tenant "PATCH" (tenant_path id) body)
        (json.marshal_update req)

  unfoldable pub register_webhook : String → Action W (Result WebhookResponse)
  register_webhook tenant_id =
      call router_cfg json.unmarshal_webhook "POST" ("/admin/webhook/" <> tenant_id) ""

  abbrev pub kubectl_client : ApiClient W
  kubectl_client = record {
    create_tenant = create_tenant;
    delete_tenant = delete_tenant;
    list_tenants = list_tenants;
    get_tenant = get_tenant;
    update_tenant = update_tenant;
    register_webhook = register_webhook;
  }
