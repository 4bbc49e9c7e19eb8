-- ===== src/Examples/Requests.antt =====
-- Requests in the small world.
use agentic_tenancy.Base.{◌+◌, ◌*◌, ◌≤◌, ◌↔◌, true, arith, ◌≡◌, ◌≢◌, ◌⊎◌, refl, none, some}
use agentic_tenancy.Registry.{TenantRecord}
use agentic_tenancy.Kube.Pods.{second}
use agentic_tenancy.Api.{tenant, redacted}
use agentic_tenancy.Api.Tenants.{
  UpdateRequest, update_tenant, delete_tenant, CreateRequest, create_tenant,
}
use agentic_tenancy.Api.Tenants.Patch.{with_token, with_timeout, update_tenant_lem}
use agentic_tenancy.Api.Tenants.Removal.{delete_tenant_lem}
use agentic_tenancy.Api.Routes.{serve, get_tenant}
use agentic_tenancy.Api.Routes.Redaction.{IsForToken, IsTokenFree, serve-IsTokenFree}
use agentic_tenancy.Lifecycle.{is_expired}
use agentic_tenancy.Lifecycle.Timeout.{asked_seconds, is_expired_lem}
use agentic_tenancy.Examples.World.{look_in, alice, registry-IsRegistry, IsFine, look, start}
use agentic_tenancy.Examples.Cluster.{api-KubeFrames}
use agentic_tenancy.Registry.Laws.{Written, Unchanged}
use agentic_tenancy.Api.Tenants.Effects.{IsNew, create_tenant_lem}
use agentic_tenancy.Examples.Wake.{handler}

abbrev carol : CreateRequest
carol = record { tenant_id = "carol"; idle_timeout_s = 0; bot_token = "t" }

named : carol.tenant_id ≢ ""
named = cc

create_tenant_lem_example :
    let (response, w') = create_tenant handler (some carol) start in
    ((response.status ≡ 201)
      × (look start carol.tenant_id ≡ none)
      × (r : TenantRecord) × IsNew carol r
      × Written (look start) carol.tenant_id (some r) (look w'))
    ⊎ ((response.status ≡ 409) × Unchanged (look start) (look w'))
create_tenant_lem_example =
    create_tenant_lem handler IsFine look registry-IsRegistry (record { at = λ w. refl }) tt carol
      start named

abbrev body_of_alice : UpdateRequest
body_of_alice = record { bot_token = some "new"; idle_timeout_s = some 900 }

update_tenant_lem_example :
    let (response, w') = update_tenant handler "alice" (some body_of_alice) start in
    let change : TenantRecord → TenantRecord =
      λ r. with_timeout body_of_alice.idle_timeout_s (with_token body_of_alice.bot_token r) in
    (response.status ≡ 404)
    ⊎ ((r : TenantRecord) × (look start "alice" ≡ some r)
        × (response.status ≡ 200)
        × (response.body ≡ tenant (redacted (change r)))
        × Written (look start) "alice" (some (change r)) (look w'))
update_tenant_lem_example =
    update_tenant_lem handler IsFine look registry-IsRegistry tt "alice" body_of_alice start

delete_tenant_lem_example :
    let (response, w') = delete_tenant handler "alice" start in
    ((response.status ≡ 204) × Written (look start) "alice" none (look w'))
    ⊎ ((response.status ≡ 500) × Unchanged (look start) (look w'))
delete_tenant_lem_example =
    delete_tenant_lem handler IsFine look registry-IsRegistry (api-KubeFrames look_in) tt tt "alice"
      start

serve-IsTokenFree_example :
    IsForToken (get_tenant "alice") ⊎ IsTokenFree (serve handler (get_tenant "alice") start).0.body
serve-IsTokenFree_example = serve-IsTokenFree handler (get_tenant "alice") start

-- Alice asks for ten minutes, which have passed.
is_expired_lem_example :
    (is_expired start.now alice ≡ true)
    ↔ (alice.last_active_at + asked_seconds alice * second ≤ start.now)
is_expired_lem_example = is_expired_lem start.now alice (omega arith) (omega arith) (omega arith)
