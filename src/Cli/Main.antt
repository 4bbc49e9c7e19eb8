-- ===== src/Cli/Main.antt =====
-- cmd/ztm: the flags, the client that they choose, and the exit of the program.
pub mod Deletion
pub mod Targets
pub mod Updating
use agentic_tenancy.Base.{
  ℕ, String, ◌<>◌, false, Option, none, some, [], ◌∷◌, ◌++◌, List, Result, ok, err, Action, pure,
  ◌==◌, string_eq, if◌then◌else◌,
}
use agentic_tenancy.Base.Int64.{Int64}
use agentic_tenancy.Cli.Types.{ApiClient}
use agentic_tenancy.Cli.Kubectl.{Shell}
use agentic_tenancy.Cli.Client.{ClientJson, KubectlClient, new_kubectl_client, kubectl_client}
use agentic_tenancy.Cli.Output.{Line, to_stdout, to_stderr, Report, done}
use agentic_tenancy.Cli.Commands.{
  Flags, Formats, tenant_create, tenant_list, tenant_get, tenant_delete, tenant_update,
  webhook_register,
}

-- What the linker sets, and the version of Go.
pub record Build : Type 0 where
  pub version : String
  pub commit : String
  pub build_date : String
  pub go_version : String

abbrev pub print_version : Build → Report
print_version b = done (
    to_stdout ("ztm " <> b.version)
    ∷ to_stdout ("commit: " <> b.commit)
    ∷ to_stdout ("built: " <> b.build_date)
    ∷ to_stdout ("go: " <> b.go_version)
    ∷ [])

-- The commands, with their arguments and their own flags.
pub data Invocation : Type 0 where
  create : String → String → Option Int64 → Invocation
  list print_build : Invocation
  get delete register : String → Invocation
  update : String → Option String → Option Int64 → Invocation

abbrev default_idle_timeout : Int64
default_idle_timeout = 600

abbrev given : Option Int64 → Int64
given none = default_idle_timeout
given (some n) = n

abbrev pub get_env_or_default : (String → String) → String → String → String
get_env_or_default env key default_value = if env key == "" then default_value else env key

-- The defaults of the global flags. The URLs of the orchestrator and of the router are read by no
-- command.
abbrev pub default_flags : (String → String) → Flags
default_flags env = record {
  namespace = get_env_or_default env "ZTM_NAMESPACE" "tenants";
  context = env "ZTM_KUBE_CONTEXT";
  output_format = "table";
  no_color = false;
}

-- `initClient`, which reads the variables of the global flags.
unfoldable pub init_client : {W : Type 0} → Shell W → ClientJson → Flags → KubectlClient W
init_client shell json flags = new_kubectl_client shell json flags.namespace flags.context

unfoldable pub run :
    {W : Type 0} → ApiClient W → Flags → Formats → Build → Invocation → Action W Report
run client flags fmt b (create id token n) = tenant_create client flags fmt id token (given n)
run client flags fmt b list = tenant_list client flags fmt
run client flags fmt b print_build = pure (print_version b)
run client flags fmt b (get id) = tenant_get client flags fmt id
run client flags fmt b (delete id) = tenant_delete client flags fmt id
run client flags fmt b (register id) = webhook_register client flags fmt id
run client flags fmt b (update id token n) = tenant_update client flags fmt id token n

-- `Execute` builds the client while the flags still have their defaults; cobra then sets the flags
-- that the command line gives, and runs the command.
unfoldable pub execute :
    {W : Type 0}
    → Shell W
    → ClientJson
    → Formats
    → Build
    → (String → String)
    → (Flags → Flags)
    → Invocation
    → Action W Report
execute shell json fmt b env parse command =
    run (kubectl_client (init_client shell json (default_flags env))) (parse (default_flags env))
      fmt b command

-- `main`: the exit code and all lines.
unfoldable pub exit_code : Report → ℕ
exit_code r = elim r.ended [ ok _ ↦ 0 | err _ ↦ 1 ]

unfoldable pub printed : Formats → Report → List Line
printed fmt r = elim r.ended [
  | ok _ ↦ r.lines
  | err e ↦ r.lines ++ (to_stderr ("Error: " <> fmt.error_text e) ∷ [])
]
