-- ===== src/Cli/Main/Updating.antt =====
-- `ztm tenant update`: what it asks of the orchestrator.
use agentic_tenancy.Base.{
  String, ◌<>◌, ◌≡◌, refl, ◌∙◌, Error, wrap, Option, none, some, List, Result, ok, err, arith,
}
use agentic_tenancy.Base.Text.{decimal}
use agentic_tenancy.Base.Int64.{Int64}
use agentic_tenancy.Cli.Types.{Tenant, UpdateTenantRequest}
use agentic_tenancy.Cli.Kubectl.{
  Shell, KubectlConfig, build_kubectl_args, exec_api_call, parse_response,
}
use agentic_tenancy.Cli.Kubectl.Reading.{
  Command, read_kubectl, header_of, build_kubectl_args_roundtrip,
}
use agentic_tenancy.Cli.Client.{
  ClientJson, KubectlClient, new_kubectl_client, tenant_path, update_tenant,
}
use agentic_tenancy.Cli.Output.{Report}
use agentic_tenancy.Cli.Commands.{Flags, Formats, tenant_update}
use agentic_tenancy.Cli.Main.{
  Build, update, run, execute, exit_code, init_client, get_env_or_default, default_flags,
}

-- The request for an update, sent from within the orchestrator's pod.
abbrev pub patch : (String → String) → String → String → Command
patch env id body = record {
  context = env "ZTM_KUBE_CONTEXT";
  namespace = get_env_or_default env "ZTM_NAMESPACE" "tenants";
  deployment = "orchestrator";
  request = record {
    method = "PATCH";
    header = header_of body;
    body = body;
    url = "http://localhost:8080" <> "/tenants/" <> id;
  };
}

-- The body for the flags that are given, and none where none is.
abbrev pub asked : ClientJson → Option String → Option Int64 → Option (Result String)
asked json none none = none
asked json token n = some (json.marshal_update (record { bot_token = token; idle_timeout_s = n }))

module _ {W : Type 0} (shell : Shell W) (env : String → String) (id : String) where
  -- Nothing is run and the exit is 1 where there is no body, and else kubectl is run once, for the
  -- request with that body.
  abbrev pub Updated : Option (Result String) → W → Report × W → Type 0
  Updated none w (r, w') = (w' ≡ w) × (exit_code r ≡ 1)
  Updated (some (err e)) w (r, w') = (w' ≡ w) × (exit_code r ≡ 1)
  Updated (some (ok body)) w (r, w') =
      (args : List String) × (read_kubectl args ≡ some (patch env id body))
      × (w' ≡ (shell.kubectl args w).1)

module _ {W : Type 0} (shell : Shell W) (json : ClientJson) (fmt : Formats) (b : Build)
    (env : String → String) (parse : Flags → Flags) where
  abbrev config : KubectlConfig
  config =
      (new_kubectl_client shell json (default_flags env).namespace
        (default_flags env).context).orchestrator_cfg

  args-patch :
      (id body : String)
      → read_kubectl (build_kubectl_args config "PATCH" (tenant_path id) body)
        ≡ some (patch env id body)
  unfolding new_kubectl_client decimal
  args-patch id body = build_kubectl_args_roundtrip config "PATCH" (tenant_path id) body

  abbrev the_client : KubectlClient W
  the_client = init_client shell json (default_flags env)

  -- The same of the client's method.
  Asked : String → Result String → W → Result Tenant × W → Type 0
  Asked id (err e) w (r, w') = (w' ≡ w) × (r ≡ err (wrap "failed to marshal request" e))
  Asked id (ok body) w (r, w') =
      w' ≡ (shell.kubectl (build_kubectl_args config "PATCH" (tenant_path id) body) w).1

  update_tenant-Asked :
      (id : String) (req : UpdateTenantRequest) (w : W)
      → Asked id (json.marshal_update req) w (update_tenant the_client id req w)
  unfolding Asked update_tenant init_client new_kubectl_client exec_api_call
  update_tenant-Asked id req w = go (json.marshal_update req) refl
    where
      go :
          (r : Result String)
          → json.marshal_update req ≡ r
          → Asked id r w (update_tenant the_client id req w)
      go (err e) h = ground arith
      go (ok body) h = ground arith

  -- What the command makes of the method's result.
  Asked-Updated :
      (id : String) (r : Result String) (w : W) (call : Result Tenant × W) (whole : Report × W)
      → whole.1 ≡ call.1
      → ((e : Error) → call.0 ≡ err e → exit_code whole.0 ≡ 1)
      → Asked id r w call
      → Updated shell env id (some r) w whole
  unfolding Asked
  Asked-Updated id (err e) w call whole same exits (stays, refused) =
      (same ∙ stays, exits _ refused)
  Asked-Updated id (ok body) w call whole same exits runs =
      (build_kubectl_args config "PATCH" (tenant_path id) body, args-patch id body, same ∙ runs)

  -- `ztm tenant update` with neither flag, or where the request has no encoding, runs nothing and exits
  -- with 1; else it runs kubectl once, for a PATCH of the tenant whose body encodes the flags that
  -- are given and no others.
  pub update_sends :
      (id : String) (token : Option String) (n : Option Int64) (w : W)
      → Updated shell env id
          (asked json token n)
          w
          (execute shell json fmt b env parse (update id token n) w)
  unfolding execute run exit_code tenant_update init_client exec_api_call parse_response
      new_kubectl_client update_tenant
  update_sends id none none w = (refl, refl)
  update_sends id none (some n) w =
      let req : UpdateTenantRequest = record { bot_token = none; idle_timeout_s = some n } in
      Asked-Updated id (json.marshal_update req) w (update_tenant the_client id req w) _ refl
        (λ e h. ground arith) (update_tenant-Asked id req w)
  update_sends id (some t) n w =
      let req : UpdateTenantRequest = record { bot_token = some t; idle_timeout_s = n } in
      Asked-Updated id (json.marshal_update req) w (update_tenant the_client id req w) _ refl
        (λ e h. ground arith) (update_tenant-Asked id req w)
