-- ===== src/Api/Routes.antt =====
-- internal/api/handler.go: `Router` and `Healthz`. A request is the route that the chi router picks,
-- with what the path and the body hold.
pub mod Redaction
use agentic_tenancy.Base.{String, Option, Action, pure}
use agentic_tenancy.Api.{Handler, Response, text}
use agentic_tenancy.Api.Tenants
use agentic_tenancy.Api.Tenants.{CreateRequest, UpdateRequest}
use agentic_tenancy.Api.Wake.{wake}

pub data ApiRequest : Type 0 where
  get_healthz list_tenants : ApiRequest
  post_tenant : Option CreateRequest → ApiRequest
  get_tenant get_bot_token : String → ApiRequest
  patch_tenant : String → Option UpdateRequest → ApiRequest
  delete_tenant put_activity post_wake : String → ApiRequest

abbrev pub healthz : Response
healthz = record { status = 200; body = text "ok" }

unfoldable pub serve : {W : Type 0} → Handler W → ApiRequest → Action W Response
serve h get_healthz = pure healthz
serve h (post_tenant req) = Tenants.create_tenant h req
serve h list_tenants = Tenants.list_tenants h
serve h (get_tenant tenant_id) = Tenants.get_tenant h tenant_id
serve h (get_bot_token tenant_id) = Tenants.get_bot_token h tenant_id
serve h (patch_tenant tenant_id req) = Tenants.update_tenant h tenant_id req
serve h (delete_tenant tenant_id) = Tenants.delete_tenant h tenant_id
serve h (put_activity tenant_id) = Tenants.update_activity h tenant_id
serve h (post_wake tenant_id) = wake h tenant_id
