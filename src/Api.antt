-- ===== src/Api.antt =====
-- internal/api/handler.go: the orchestrator's handlers. A handler is an action that returns the
-- response; what a request's JSON body decodes to is its argument, `none` where it does not decode.
pub mod Tenants
pub mod Frames
pub mod Wake
pub mod Routes
use agentic_tenancy.Base.{
  ℕ, ◌*◌, String, ◌<>◌, Option, none, some, List, Result, Action, pure, ◌>>=◌, ◌>>◌, ◌==◌, nat_eq,
  string_eq, not, if◌then◌else◌, ◌&&◌,
}
use agentic_tenancy.Base.Int64.{Int64}
use agentic_tenancy.Registry.{TenantRecord, RegistryClient}
use agentic_tenancy.Lock.{Locker}
use agentic_tenancy.Kube.Objects.{KubeClient}
use agentic_tenancy.Kube.Pods.{second}
use agentic_tenancy.Telegram.{TelegramClient, register_webhook}
use agentic_tenancy.Services.{Clock, Redis}

abbrev pub router_endpoint_cache_prefix : String
router_endpoint_cache_prefix = "router:endpoint:"

-- `Config`; the two durations are in nanoseconds.
pub record ApiConfig : Type 0 where
  pub namespace : String
  pub s3_bucket : String
  pub wake_lock_ttl : ℕ
  pub pod_ready_wait : ℕ

-- `Handler`. What may be `nil` in the source is an option; the clock is the process's.
pub record Handler (W : Type 0) : Type 0 where
  pub reg : RegistryClient W
  pub k8s : Option (KubeClient W)
  pub lock : Locker W
  pub rdb : Option (Redis W)
  pub tg : Option (TelegramClient W)
  pub cfg : ApiConfig
  pub clock : Clock W

abbrev or_default : ℕ → ℕ → ℕ
or_default d n = if n == 0 then d else n

abbrev pub with_defaults : ApiConfig → ApiConfig
with_defaults cfg = record cfg {
  wake_lock_ttl = or_default (240 * second) cfg.wake_lock_ttl;
  pod_ready_wait = or_default (210 * second) cfg.pod_ready_wait;
}

-- `New`
unfoldable pub new : {W : Type 0} → Handler W → Handler W
new h = record h { cfg = with_defaults h.cfg }

pub data Body : Type 0 where
  empty : Body
  text : String → Body
  tenant : TenantRecord → Body
  tenants : List TenantRecord → Body
  bot_token_json : String → Body
  pod_ip_json : String → Body

pub record Response : Type 0 where
  pub status : ℕ
  pub body : Body

abbrev pub http_error : ℕ → String → Response
http_error status message = record { status = status; body = text message }

abbrev pub redacted : TenantRecord → TenantRecord
redacted r = record r { bot_token = "" }

abbrev pub s3_prefix_of : String → String
s3_prefix_of tenant_id = "tenants/" <> tenant_id <> "/"

-- `if h.tg != nil && token != "" { RegisterWebhook … }`: a failure is only logged.
abbrev pub register :
    {W : Type 0} → Option (TelegramClient W) → String → String → Action W (Unit {0})
register none token id = pure tt
register (some tg) token id =
    if token == "" then pure tt else (register_webhook tg token id >> pure tt)
