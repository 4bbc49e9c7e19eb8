-- ===== src/Cli/Main/Deletion.antt =====
-- `ztm tenant delete`, from the command line to the registry.
use agentic_tenancy.Base.{
  String, ◌<>◌, ◌≡◌, ◌<◌, sym, subst, none, some, List, ok, Result-cases, inl, inr, arith,
}
use agentic_tenancy.Base.Text.{decimal}
use agentic_tenancy.Registry.Laws.{Directory, IsRegistry, Written}
use agentic_tenancy.Api.{Handler}
use agentic_tenancy.Api.Routes.{serve, delete_tenant}
use agentic_tenancy.Api.Frames.{TelegramFrames, OptionalKubeFrames, RedisFrames}
use agentic_tenancy.Api.Tenants.Removal.{delete_tenant_lem}
use agentic_tenancy.Cli.Kubectl.{Shell, build_kubectl_args, exec_api_call, parse_response}
use agentic_tenancy.Cli.Kubectl.Reading.{Command, read_kubectl, build_kubectl_args_roundtrip}
use agentic_tenancy.Cli.Client.{ClientJson, new_kubectl_client, tenant_path}
use agentic_tenancy.Cli.Client
use agentic_tenancy.Cli.Commands.{Flags, Formats, tenant_delete}
use agentic_tenancy.Cli.Main.{
  Build, delete, run, execute, exit_code, init_client, get_env_or_default, default_flags,
}

-- The request for a deletion, sent from within the orchestrator's pod.
abbrev pub deletion : (String → String) → String → Command
deletion env id = record {
  context = env "ZTM_KUBE_CONTEXT";
  namespace = get_env_or_default env "ZTM_NAMESPACE" "tenants";
  deployment = "orchestrator";
  request = record {
    method = "DELETE";
    header = "";
    body = "";
    url = "http://localhost:8080" <> "/tenants/" <> id;
  };
}

-- kubectl ends well only when wget has had its request served, with no error status.
pub record Reaches {W : Type 0} (shell : Shell W) (h : Handler W) (c : Command) (id : String)
    : Type 0 where
  pub served :
      (args : List String) (w : W)
      → read_kubectl args ≡ some c
      → (shell.kubectl args w).0.ended ≡ ok tt
      → ((serve h (delete_tenant id) w).0.status < 400)
        × ((shell.kubectl args w).1 ≡ (serve h (delete_tenant id) w).1)

module _ {W : Type 0} (h : Handler W) (IsGood : W → Type 0) (look : W → Directory)
    (reg : IsRegistry h.reg IsGood look) (kube : OptionalKubeFrames look h.k8s)
    (redis : RedisFrames look h.rdb) (telegram : TelegramFrames look h.tg) where
  module _ (shell : Shell W) (json : ClientJson) (env : String → String) (id : String) where
    abbrev args : List String
    args =
        build_kubectl_args
          (new_kubectl_client shell json (default_flags env).namespace
            (default_flags env).context).orchestrator_cfg
          "DELETE" (tenant_path id) ""

    args-deletion : read_kubectl args ≡ some (deletion env id)
    unfolding new_kubectl_client decimal
    args-deletion =
        build_kubectl_args_roundtrip
          (new_kubectl_client shell json (default_flags env).namespace
            (default_flags env).context).orchestrator_cfg
          "DELETE" (tenant_path id) ""

    served-Written :
        (w : W)
        → Reaches shell h (deletion env id) id
        → (shell.kubectl args w).0.ended ≡ ok tt
        → Written (look w) id none (look (shell.kubectl args w).1)
    unfolding serve
    served-Written w reaches e =
        let (good, same) = reaches.served args w args-deletion e in
        elim (delete_tenant_lem h IsGood look reg kube redis telegram id w) [
          | inl (_, written) ↦ subst (λ w'. Written (look w) id none (look w')) (sym same) written
          | inr (bad, _) ↦ absurd (ground arith)
        ]

  -- Where `ztm tenant delete` exits with 0, the tenant has no record any more, and no other record
  -- has changed.
  pub delete_exits_zero :
      (shell : Shell W) (json : ClientJson) (fmt : Formats) (b : Build) (env : String → String)
      (parse : Flags → Flags) (id : String) (w : W)
      → Reaches shell h (deletion env id) id
      → exit_code (execute shell json fmt b env parse (delete id) w).0 ≡ 0
      → Written (look w) id none (look (execute shell json fmt b env parse (delete id) w).1)
  unfolding execute run exit_code tenant_delete init_client exec_api_call parse_response serve
      new_kubectl_client Client.delete_tenant
  delete_exits_zero shell json fmt b env parse id w reaches exits =
      elim (Result-cases (shell.kubectl (args shell json env id) w).0.ended) [
        | inl (u, e) ↦
            let left = shell.kubectl (args shell json env id) w in
            let same : (execute shell json fmt b env parse (delete id) w).1 ≡ left.1 =
              ground arith in
            subst (λ w'. Written (look w) id none (look w')) (sym same)
              (served-Written shell json env id w reaches e)
        | inr (x, e) ↦ absurd (ground arith)
      ]
