-- ===== src/Api/Tenants.antt =====
-- internal/api/handler.go: the handlers of `/tenants`.
pub mod Effects
pub mod Removal
pub mod Patch
use agentic_tenancy.Base.{
  ℕ, String, ◌<>◌, Option, none, some, map, Result, ok, err, Action, pure, ◌>>=◌, ◌>>◌, ◌==◌,
  nat_eq, string_eq, if◌then◌else◌,
}
use agentic_tenancy.Base.Int64.{Int64}
use agentic_tenancy.Registry.{TenantRecord, idle}
use agentic_tenancy.Kube.Objects.{KubeClient}
use agentic_tenancy.Kube.Pods.{delete_pod}
use agentic_tenancy.Kube.Volumes.{delete_pvc}
use agentic_tenancy.Telegram.{TelegramClient, delete_webhook}
use agentic_tenancy.Services.{Redis}
use agentic_tenancy.Api.{
  Handler, Response, empty, tenant, tenants, bot_token_json, http_error, redacted, s3_prefix_of,
  register, router_endpoint_cache_prefix,
}

pub record CreateRequest : Type 0 where
  pub tenant_id : String
  pub idle_timeout_s : Int64
  pub bot_token : String

-- A field is `none` where the JSON object lacks it.
pub record UpdateRequest : Type 0 where
  pub bot_token : Option String
  pub idle_timeout_s : Option Int64

module _ {W : Type 0} (h : Handler W) where
  -- The record that `CreateTenant` stores.
  abbrev pub new_record : CreateRequest → ℕ → ℕ → TenantRecord
  new_record req created_at last_active_at = record {
    tenant_id = req.tenant_id;
    status = idle;
    pod_name = "";
    pod_ip = "";
    namespace = h.cfg.namespace;
    s3_prefix = s3_prefix_of req.tenant_id;
    bot_token = req.bot_token;
    created_at = created_at;
    last_active_at = last_active_at;
    idle_timeout_s = if req.idle_timeout_s == 0 then 300 else req.idle_timeout_s;
  }

  abbrev store_new : CreateRequest → TenantRecord → Action W Response
  store_new req rec = h.reg.create_tenant rec >>= λ stored. elim stored [
    | err _ ↦ pure (http_error 409 "conflict")
    | ok tt ↦ do
      register h.tg req.bot_token req.tenant_id
      pure (record { status = 201; body = tenant (redacted rec) })
  ]

  unfoldable pub create_tenant : Option CreateRequest → Action W Response
  create_tenant none = pure (http_error 400 "bad request")
  create_tenant (some req) =
      if req.tenant_id == "" then pure (http_error 400 "tenant_id required") else do
        created_at ← h.clock.now
        last_active_at ← h.clock.now
        store_new req (new_record req created_at last_active_at)

  -- A nil slice and an empty one are the same list here.
  unfoldable pub list_tenants : Action W Response
  list_tenants = h.reg.list_all >>= λ listed. elim listed [
    | err _ ↦ pure (http_error 500 "internal error")
    | ok records ↦ pure (record { status = 200; body = tenants (map redacted records) })
  ]

  -- The shape of the two reads: a failure, a missing tenant, or an answer from the record.
  abbrev answered : (TenantRecord → Response) → Result (Option TenantRecord) → Response
  answered answer (err _) = http_error 500 "internal error"
  answered answer (ok none) = http_error 404 "not found"
  answered answer (ok (some rec)) = answer rec

  unfoldable pub get_tenant : String → Action W Response
  get_tenant tenant_id = h.reg.get_tenant tenant_id >>= λ found.
      pure (answered (λ rec. record { status = 200; body = tenant (redacted rec) }) found)

  unfoldable pub get_bot_token : String → Action W Response
  get_bot_token tenant_id = h.reg.get_tenant tenant_id >>= λ found.
      pure (answered (λ rec. record { status = 200; body = bot_token_json rec.bot_token }) found)

  -- The last part of `UpdateTenant`: the record is read again.
  abbrev pub reread : Result (Option TenantRecord) → Response
  reread (ok (some rec)) = record { status = 200; body = tenant (redacted rec) }
  reread _ = http_error 404 "not found"

  -- An optional update; a failure ends the request.
  abbrev not_updated : Response
  not_updated = http_error 404 "not found or internal error"

  abbrev pub set_token : Option String → String → Action W Response → Action W Response
  set_token none tenant_id next = next
  set_token (some token) tenant_id next = h.reg.update_bot_token tenant_id token >>= λ updated.
      elim updated [ err _ ↦ pure not_updated | ok tt ↦ (register h.tg token tenant_id >> next) ]

  abbrev pub set_timeout : Option Int64 → String → Action W Response → Action W Response
  set_timeout none tenant_id next = next
  set_timeout (some t) tenant_id next = h.reg.update_idle_timeout tenant_id t >>= λ updated.
      elim updated [ err _ ↦ pure not_updated | ok tt ↦ next ]

  unfoldable pub update_tenant : String → Option UpdateRequest → Action W Response
  update_tenant tenant_id none = pure (http_error 400 "bad request")
  update_tenant tenant_id (some req) = set_token req.bot_token tenant_id (
      set_timeout req.idle_timeout_s tenant_id
        (h.reg.get_tenant tenant_id >>= λ found. pure (reread found)))

  -- The Kubernetes part of `DeleteTenant`: failures are only logged.
  abbrev pub delete_objects : Option (KubeClient W) → String → TenantRecord → Action W (Unit {0})
  delete_objects none tenant_id rec = pure tt
  delete_objects (some k8s) tenant_id rec = do
    if rec.pod_name == ""
        then pure tt
        else (delete_pod k8s rec.pod_name rec.namespace 30 >> pure tt)
    delete_pvc k8s tenant_id rec.namespace
    pure tt

  abbrev pub clear_cache : Option (Redis W) → String → Action W (Unit {0})
  clear_cache none tenant_id = pure tt
  clear_cache (some rdb) tenant_id = rdb.del (router_endpoint_cache_prefix <> tenant_id) >> pure tt

  abbrev pub remove_webhook : Option (TelegramClient W) → String → Action W (Unit {0})
  remove_webhook none token = pure tt
  remove_webhook (some tg) token =
      if token == "" then pure tt else (delete_webhook tg token >> pure tt)

  abbrev no_content : Response
  no_content = record { status = 204; body = empty }

  abbrev remove_record : String → TenantRecord → Action W Response
  remove_record tenant_id rec = do
    delete_objects h.k8s tenant_id rec
    deleted ← h.reg.delete_tenant tenant_id
    elim deleted [
      | err _ ↦ pure (http_error 500 "internal error")
      | ok tt ↦ do clear_cache h.rdb tenant_id; remove_webhook h.tg rec.bot_token; pure no_content
    ]

  unfoldable pub delete_tenant : String → Action W Response
  delete_tenant tenant_id = h.reg.get_tenant tenant_id >>= λ found. elim found [
    | err _ ↦ pure (http_error 500 "internal error")
    | ok none ↦ pure no_content
    | ok (some rec) ↦ remove_record tenant_id rec
  ]

  unfoldable pub update_activity : String → Action W Response
  update_activity tenant_id = h.reg.update_activity tenant_id >>= λ updated. elim updated [
    | err _ ↦ pure (http_error 500 "internal error")
    | ok tt ↦ pure no_content
  ]
