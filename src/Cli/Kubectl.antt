-- ===== src/Cli/Kubectl.antt =====
-- internal/cli/k8s/exec.go: the call of an API through `kubectl exec` and `wget`.
pub mod Reading
use agentic_tenancy.Base.{
  ℕ, String, ◌<>◌, Option, none, some, List, [], ◌∷◌, ◌++◌, Error, Result, ok, err, msg, wrap,
  Action, pure, ◌>>=◌, ◌==◌, string_eq, if◌then◌else◌,
}
use agentic_tenancy.Base.Text.{decimal, contains}

-- `Config`, and `NewConfig` its constructor.
pub record KubectlConfig : Type 0 where
  pub namespace : String
  pub context : String
  pub deployment : String
  pub port : ℕ

abbrev context_args : String → List String
context_args context = if context == "" then [] else "--context" ∷ context ∷ []

abbrev body_args : String → List String
body_args body =
    if body == ""
    then []
    else "--header=Content-Type: application/json" ∷ ("--body-data=" <> body) ∷ []

abbrev pub url_prefix : KubectlConfig → String
url_prefix cfg = "http://localhost:" <> decimal cfg.port

abbrev pub wget_options : KubectlConfig → String → String → String → List String
wget_options cfg method path body =
    ("--method=" <> method) ∷ (body_args body ++ ((url_prefix cfg <> path) ∷ []))

-- A nil body and an empty one are the same text here, and give the same arguments.
unfoldable pub build_kubectl_args : KubectlConfig → String → String → String → List String
build_kubectl_args cfg method path body =
    context_args cfg.context
    ++ ("exec"
        ∷ "-n"
        ∷ cfg.namespace
        ∷ ("deployment/" <> cfg.deployment)
        ∷ "--"
        ∷ "wget"
        ∷ "-qO-"
        ∷ wget_options cfg method path body)

-- The output of a command, and how it ended.
pub record ExecReply : Type 0 where
  pub output : String
  pub ended : Result (Unit {0})

-- The last message has the wrapped error before the output.
unfoldable pub parse_response : ExecReply → Result String
parse_response reply = elim reply.ended [
  | ok _ ↦ ok reply.output
  | err e ↦
      if contains reply.output "not found"
      then err (
          msg (
            "kubectl exec failed: deployment not found. Make sure the deployment is running and namespace is correct.\n"
            <> reply.output))
      else if contains reply.output "No such file or directory"
      then err (msg "kubectl not found in PATH. Please install kubectl")
      else err (wrap ("kubectl exec failed: \n" <> reply.output) e)
]

-- `exec.CommandContext(ctx, "kubectl", args...)` and its `CombinedOutput`.
pub record Shell (W : Type 0) : Type 0 where
  pub kubectl : List String → Action W ExecReply

unfoldable pub exec_api_call :
    {W : Type 0} → Shell W → KubectlConfig → String → String → String → Action W (Result String)
exec_api_call shell cfg method path body =
    shell.kubectl (build_kubectl_args cfg method path body) >>= λ reply. pure (parse_response reply)
