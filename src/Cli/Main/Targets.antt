-- ===== src/Cli/Main/Targets.antt =====
-- The cluster that a command acts on.
use agentic_tenancy.Base.{String, ◌≡◌, refl, sym, ◌∙◌, none, some}
use agentic_tenancy.Cli.Types.{ApiClient}
use agentic_tenancy.Cli.Kubectl.{Shell}
use agentic_tenancy.Cli.Client.{ClientJson, kubectl_client}
use agentic_tenancy.Cli.Commands.{
  Flags, Formats, tenant_create, tenant_list, tenant_get, tenant_delete, tenant_update,
  webhook_register,
}
use agentic_tenancy.Cli.Main.{
  Build, Invocation, create, list, print_build, get, delete, register, update, run, execute,
  init_client, default_flags,
}

module _ {W : Type 0} (client : ApiClient W) (fmt : Formats) (b : Build) where
  run-targets :
      (namespace context : String) (f : Flags) (command : Invocation)
      → run client (record f { namespace = namespace; context = context }) fmt b command
        ≡ run client f fmt b command
  unfolding run tenant_create tenant_list tenant_get tenant_delete tenant_update webhook_register
  run-targets namespace context f (create id token n) = refl
  run-targets namespace context f list = refl
  run-targets namespace context f print_build = refl
  run-targets namespace context f (get id) = refl
  run-targets namespace context f (delete id) = refl
  run-targets namespace context f (register id) = refl
  run-targets namespace context f (update id none none) = refl
  run-targets namespace context f (update id none (some n)) = refl
  run-targets namespace context f (update id (some token) n) = refl

  run-same :
      (f g : Flags) (command : Invocation)
      → f.output_format ≡ g.output_format
      → f.no_color ≡ g.no_color
      → run client f fmt b command ≡ run client g fmt b command
  run-same f g command same_format same_color =
      sym (run-targets g.namespace g.context f command) ∙ (λ i.
        run client
          (record {
            namespace = g.namespace;
            context = g.context;
            output_format = same_format i;
            no_color = same_color i;
          })
          fmt b command)

-- What a command does and writes depends on none of the global flags but the format of the output and
-- the colours: whatever `--namespace` and `--context` give, the command acts where the environment's
-- defaults say.
pub execute_ignores_targets :
    {W : Type 0} (shell : Shell W) (json : ClientJson) (fmt : Formats) (b : Build)
    (env : String → String) (parse parse' : Flags → Flags) (command : Invocation)
    → (parse (default_flags env)).output_format ≡ (parse' (default_flags env)).output_format
    → (parse (default_flags env)).no_color ≡ (parse' (default_flags env)).no_color
    → execute shell json fmt b env parse command ≡ execute shell json fmt b env parse' command
unfolding execute
execute_ignores_targets shell json fmt b env parse parse' command =
    run-same (kubectl_client (init_client shell json (default_flags env))) fmt b
      (parse (default_flags env)) (parse' (default_flags env)) command
