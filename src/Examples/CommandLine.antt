-- ===== src/Examples/CommandLine.antt =====
-- The command line in the small world: kubectl reaches the orchestrator there.
use agentic_tenancy.Base.{
  String, ◌<>◌, ◌≡◌, refl, sym, subst, false, Option, none, some, [], foreign, ok, err, Action,
  arith, ltb, ◌<◌, ◌==◌, string_eq, if◌then◌else◌,
}
use agentic_tenancy.Base.Dict
use agentic_tenancy.Base.Text.{decimal}
use agentic_tenancy.Registry.Laws.{Written}
use agentic_tenancy.Registry.Mock
use agentic_tenancy.Api.{Response}
use agentic_tenancy.Api.Tenants
use agentic_tenancy.Api.Routes.{serve, delete_tenant}
use agentic_tenancy.Cli.Types.{Tenant}
use agentic_tenancy.Cli.Kubectl.{
  KubectlConfig, Shell, ExecReply, build_kubectl_args, url_prefix, exec_api_call, parse_response,
}
use agentic_tenancy.Cli.Kubectl.Reading.{
  Command, strip, read_kubectl, read_exec, read_wget, build_kubectl_args_roundtrip,
}
use agentic_tenancy.Cli.Client
use agentic_tenancy.Cli.Client.{ClientJson, new_kubectl_client}
use agentic_tenancy.Cli.Commands.{Flags, Formats, tenant_delete}
use agentic_tenancy.Cli.Main.{Build, delete, update, run, execute, exit_code, init_client}
use agentic_tenancy.Cli.Main.Targets.{execute_ignores_targets}
use agentic_tenancy.Cli.Main.Deletion.{Reaches, deletion, delete_exits_zero}
use agentic_tenancy.Cli.Main.Updating.{Updated, asked, update_sends}
use agentic_tenancy.Examples.World.{World, look_in, registry-IsRegistry, IsFine, look, start}
use agentic_tenancy.Examples.Cluster.{api-KubeFrames}
use agentic_tenancy.Examples.Wake.{handler}

abbrev config : KubectlConfig
config = record { namespace = "tenants"; context = ""; deployment = "router"; port = 9090 }

build_kubectl_args_roundtrip_example :
    read_kubectl (build_kubectl_args config "POST" "/admin/webhook/bob" "")
    ≡ some (record {
      context = "";
      namespace = "tenants";
      deployment = "router";
      request = record {
        method = "POST";
        header = "";
        body = "";
        url = url_prefix config <> "/admin/webhook/bob";
      };
    })
build_kubectl_args_roundtrip_example =
    build_kubectl_args_roundtrip config "POST" "/admin/webhook/bob" ""

-- wget ends with an error where the status is one.
abbrev ended : Response → ExecReply
ended r = record {
  output = "";
  ended = if ltb r.status 400 then ok tt else err (foreign "exit status 8");
}

abbrev refused : ExecReply
refused = record { output = ""; ended = err (foreign "exit status 1") }

abbrev on_url : Option String → Action World ExecReply
on_url none w = (refused, w)
on_url (some id) w = let (r, w') = serve handler (delete_tenant id) w in (ended r, w')

abbrev on_command : Option Command → Action World ExecReply
on_command none w = (refused, w)
on_command (some c) w =
    if c.request.method == "DELETE"
    then on_url (strip "http://localhost:8080/tenants/" c.request.url) w
    else (refused, w)

abbrev shell : Shell World
shell = record { kubectl = λ args. on_command (read_kubectl args) }

abbrev tenant : Tenant
tenant = record {
  tenant_id = "alice";
  status = "running";
  bot_token = "";
  idle_timeout_s = 600;
  pod_name = "";
  pod_ip = "";
  last_active_at = none;
  created_at = none;
}

abbrev json : ClientJson
json = record {
  marshal_create = λ r. ok "{}";
  marshal_update = λ r. ok "{}";
  unmarshal_tenant = λ s. ok tenant;
  unmarshal_tenants = λ s. ok [];
  unmarshal_webhook = λ s. ok (record { success = false; message = ""; url = "" });
}

abbrev formats : Formats
formats = record {
  error_text = λ e. "error";
  rfc3339 = λ t. "";
  date_time = λ t. "";
  columns = λ rows. [];
  tenant_json = λ t. ok "{}";
  tenants_json = λ l. ok "[]";
  webhook_json = λ r. ok "{}";
}

abbrev build : Build
build = record { version = "v0.1.0"; commit = "c"; build_date = "d"; go_version = "go1.25" }

abbrev env : String → String
env key = ""

abbrev in_prod : Flags → Flags
in_prod f = record f { namespace = "prod"; context = "prod" }

execute_ignores_targets_example :
    execute shell json formats build env in_prod (delete "alice")
    ≡ execute shell json formats build env (λ f. f) (delete "alice")
execute_ignores_targets_example =
    execute_ignores_targets shell json formats build env in_prod (λ f. f) (delete "alice") refl refl

good : (r : Response) → (ended r).ended ≡ ok tt → r.status < 400
good r h = ground arith

answered :
    (o : Option Command) (w : World)
    → o ≡ some (deletion env "alice")
    → (on_command o w).0.ended ≡ ok tt
    → ((serve handler (delete_tenant "alice") w).0.status < 400)
      × ((on_command o w).1 ≡ (serve handler (delete_tenant "alice") w).1)
unfolding strip
answered o w e =
    subst
      (λ o.
        (on_command o w).0.ended ≡ ok tt
        → ((serve handler (delete_tenant "alice") w).0.status < 400)
          × ((on_command o w).1 ≡ (serve handler (delete_tenant "alice") w).1))
      (sym e) (λ h. (good (serve handler (delete_tenant "alice") w).0 h, refl))

reaches : Reaches shell handler (deletion env "alice") "alice"
reaches = record { served = λ args. answered (read_kubectl args) }

exits_zero : exit_code (execute shell json formats build env in_prod (delete "alice") start).0 ≡ 0
unfolding execute run exit_code tenant_delete init_client exec_api_call parse_response
    new_kubectl_client Client.delete_tenant build_kubectl_args read_kubectl read_exec read_wget
    strip decimal serve Tenants.delete_tenant Mock.get_tenant Mock.delete_tenant Dict.lookup
exits_zero = refl

delete_exits_zero_example :
    Written
      (look start)
      "alice"
      none
      (look (execute shell json formats build env in_prod (delete "alice") start).1)
delete_exits_zero_example =
    delete_exits_zero handler IsFine look registry-IsRegistry (api-KubeFrames look_in) tt tt shell
      json formats build env in_prod "alice" start reaches exits_zero

update_sends_example :
    Updated shell env "alice"
      (asked json none (some 900))
      start
      (execute shell json formats build env in_prod (update "alice" none (some 900)) start)
update_sends_example =
    update_sends shell json formats build env in_prod "alice" none (some 900) start
