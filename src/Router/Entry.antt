-- ===== src/Router/Entry.antt =====
-- cmd/router/main.go: the router that the program makes, by its environment, and its routes.
use agentic_tenancy.Base.{
  String, ◌<>◌, Option, none, Action, pure, ◌>>=◌, Result, ◌==◌, string_eq, if◌then◌else◌,
}
use agentic_tenancy.Services.{Redis, Http}
use agentic_tenancy.Api.{Response, text}
use agentic_tenancy.Router.{Router, RouterJson, webhook_handler}
use agentic_tenancy.Router.Registration.{register_webhook_handler}

abbrev pub getenv : (String → String) → String → String → String
getenv env key def = if env key == "" then def else env key

-- The client of Redis is made for an address. The client of HTTP gives up after 320 seconds.
abbrev pub new_router :
    {W : Type 0} → (String → Redis W) → Http W → RouterJson → (String → String) → Router W
new_router new_redis http json env = record {
  rdb = new_redis (getenv env "REDIS_ADDR" "localhost:6379");
  orchestrator_addr = getenv env "ORCHESTRATOR_ADDR" "http://localhost:8080";
  public_base_url = getenv env "PUBLIC_BASE_URL" "https://<YOUR_ROUTER_DOMAIN>";
  http = http;
  json = json;
}

abbrev pub listen_addr : (String → String) → String
listen_addr env = ":" <> getenv env "PORT" "9090"

-- The request that chi's routing makes of a path; a body may fail to be read.
pub data RouterRequest : Type 0 where
  get_healthz : RouterRequest
  post_update : String → Result String → RouterRequest
  post_registration : String → RouterRequest

abbrev healthz : Response
healthz = record { status = 200; body = text "ok" }

-- The response, and the goroutine that is started.
unfoldable pub serve :
    {W : Type 0}
    → Router W
    → RouterRequest
    → Action W (Response × Option (Action W (Result (Unit {0}))))
serve rt get_healthz = pure (healthz, none)
serve rt (post_update tenant_id body) = pure (webhook_handler rt tenant_id body)
serve rt (post_registration tenant_id) =
    register_webhook_handler rt tenant_id >>= λ r. pure (r, none)
