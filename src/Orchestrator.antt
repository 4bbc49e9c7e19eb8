-- ===== src/Orchestrator.antt =====
-- cmd/orchestrator/main.go: the clients, the background loops and the handlers that the program
-- starts, by its environment. What it waits for and how it stops are not modelled.
pub mod Wiring
use agentic_tenancy.Base.{
  ℕ, String, ◌<>◌, Bool, true, false, not, ◌||◌, Option, none, some, Result, ok, err, wrap, ◌==◌,
  string_eq, if◌then◌else◌, Action,
}
use agentic_tenancy.Base.Int64.{Int64, signed_lt}
use agentic_tenancy.Services.{Clock, Redis, Http}
use agentic_tenancy.Registry.{RegistryClient}
use agentic_tenancy.Registry.Dynamo.{Dynamo, DynamoClient, dynamo_client}
use agentic_tenancy.Lock.{Locker, redis_locker}
use agentic_tenancy.Kube.Objects.{KubeApi, KubeClient, new_client}
use agentic_tenancy.Telegram
use agentic_tenancy.Telegram.{TelegramClient, ApiResponse}
use agentic_tenancy.Api
use agentic_tenancy.Api.{Handler}
use agentic_tenancy.WarmPool
use agentic_tenancy.WarmPool.{Manager}
use agentic_tenancy.Lifecycle
use agentic_tenancy.Lifecycle.{Controller, Leases}
use agentic_tenancy.Reconciler.{Reconciler}

-- What the libraries make: the AWS configuration, in local mode with static credentials; the
-- clients of DynamoDB, at an endpoint or the default one for the empty text, and of Redis;
-- the configurations of a Kubernetes client, from a file and in the cluster, and the clientset for
-- one; the number that `strconv.Atoi` returns, whether or not it returns an error.
pub record Libraries (W RestConfig : Type 0) : Type 0 where
  pub load_aws : Bool → Result (Unit {0})
  pub new_dynamo : String → Dynamo W
  pub new_redis : String → Redis W
  pub file_config : Result RestConfig
  pub in_cluster_config : Result RestConfig
  pub new_clientset : RestConfig → Result (KubeApi W × Leases W)
  pub atoi : String → Int64
  pub http : Http W
  pub decode : String → Result ApiResponse
  pub clock : Clock W

-- The loops that run beside the handlers.
pub record Background (W : Type 0) : Type 0 where
  pub warm_pool : Option (Manager W)
  pub lifecycle : Controller W
  pub reconciler : Reconciler W

pub record Started (W : Type 0) : Type 0 where
  pub background : Option (Background W)
  pub handler : Handler W
  pub addr : String

abbrev pub getenv : (String → String) → String → String → String
getenv env key def = if env key == "" then def else env key

abbrev pub local_mode : (String → String) → Bool
local_mode env = env "LOCAL_MODE" == "true" || not (env "DYNAMODB_ENDPOINT" == "")

abbrev opt : {A : Type 0} → Result A → Option A
opt (ok a) = some a
opt (err _) = none

module _ {W RestConfig : Type 0} (libs : Libraries W RestConfig) (env : String → String) where
  abbrev connect : Result RestConfig → Result (KubeApi W × Leases W)
  connect (err e) = err e
  connect (ok cfg) = libs.new_clientset cfg

  abbrev try_kubeconfig : Option (KubeApi W × Leases W)
  try_kubeconfig = opt (connect libs.file_config)

  abbrev required : Result (KubeApi W × Leases W) → Result (Option (KubeApi W × Leases W))
  required (ok cs) = ok (some cs)
  required (err e) = err e

  -- The clientset, none in local mode without a usable configuration; an error ends the program.
  unfoldable pub clientset : Result (Option (KubeApi W × Leases W))
  clientset =
      if local_mode env then ok try_kubeconfig else required (connect libs.in_cluster_config)

  abbrev pub namespace : String
  namespace = getenv env "K8S_NAMESPACE" "tenants"

  abbrev pub s3_bucket : String
  s3_bucket = getenv env "S3_BUCKET" "zeroclaw-tenant-state"

  abbrev rdb : Redis W
  rdb = libs.new_redis (getenv env "REDIS_ADDR" "localhost:6379")

  abbrev reg : RegistryClient W
  reg = dynamo_client (record {
    db = libs.new_dynamo (env "DYNAMODB_ENDPOINT");
    table_name = getenv env "DYNAMODB_TABLE" "tenant-registry";
    clock = libs.clock;
  })

  abbrev telegam_client : String → Option (TelegramClient W)
  telegam_client router_public_url =
      if router_public_url == ""
      then none
      else some (Telegram.new libs.http libs.decode router_public_url)

  abbrev warm_target : Int64
  warm_target = libs.atoi (getenv env "WARM_POOL_TARGET" "10")

  abbrev kube_client : KubeApi W → KubeClient W
  kube_client cs = new_client cs (record {
    kata_runtime_class = getenv env "KATA_RUNTIME_CLASS" "kata-qemu";
    zero_claw_image = getenv env "ZEROCLAW_IMAGE" "zeroclaw:latest";
    s3_bucket = s3_bucket;
  })

  abbrev background : KubeApi W × Leases W → Background W
  background (cs, leases) = record {
    warm_pool =
        if signed_lt 0 warm_target
        then some (WarmPool.new (kube_client cs) namespace warm_target)
        else none;
    lifecycle =
        Lifecycle.new libs.clock reg (kube_client cs) leases namespace
          (getenv env "LEADER_ELECTION_ID" ("orchestrator-" <> env "POD_NAME"));
    reconciler = record {
      reg = reg;
      k8s = kube_client cs;
      rdb = rdb;
      namespace = namespace;
      clock = libs.clock;
    };
  }

  abbrev handler_with : Option (KubeClient W) → Handler W
  handler_with k8s = Api.new (record {
    reg = reg;
    k8s = k8s;
    lock = redis_locker rdb;
    rdb = some rdb;
    tg = telegam_client (env "ROUTER_PUBLIC_URL");
    cfg = record {
      namespace = namespace;
      s3_bucket = s3_bucket;
      wake_lock_ttl = 0;
      pod_ready_wait = 0;
    };
    clock = libs.clock;
  })

  abbrev pub started : Option (KubeApi W × Leases W) → Started W
  started none = record {
    background = none;
    handler = handler_with none;
    addr = ":" <> getenv env "PORT" "8080";
  }
  started (some cs) = record {
    background = some (background cs);
    handler = handler_with (some (kube_client cs.0));
    addr = ":" <> getenv env "PORT" "8080";
  }

  abbrev with_clientset : Result (Option (KubeApi W × Leases W)) → Result (Started W)
  with_clientset (err e) = err e
  with_clientset (ok cs) = ok (started cs)

  abbrev after_aws : Result (Unit {0}) → Result (Started W)
  after_aws (err e) = err e
  after_aws (ok tt) = with_clientset clientset

  -- An error ends the program with the code 1.
  unfoldable pub start : Result (Started W)
  start = after_aws (libs.load_aws (local_mode env))
