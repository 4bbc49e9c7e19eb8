-- ===== src/Examples/Starting.antt =====
-- The orchestrator's start in the small world, in its cluster.
use agentic_tenancy.Base.{String, ◌≡◌, ◌<◌, ◌⊎◌, refl, true, some, Result, ok, err, foreign, Action}
use agentic_tenancy.Registry.Dynamo.{Dynamo}
use agentic_tenancy.Orchestrator.{
  Libraries, Background, Started, local_mode, clientset, started, start,
}
use agentic_tenancy.Orchestrator.Wiring.{asked_size, Wired, start-Wired}
use agentic_tenancy.Examples.World.{World, clock, rdb}
use agentic_tenancy.Examples.Cluster.{api}
use agentic_tenancy.Examples.Passes.{leads}

abbrev unreachable : {A : Type 0} → Action World (Result A)
unreachable w = (err (foreign "no such host"), w)

abbrev db : Dynamo World
db = record {
  get_item = λ table key. unreachable;
  put_item = λ table item on. unreachable;
  update_item = λ table key l on. unreachable;
  scan = λ table filter. unreachable;
  delete_item = λ table key. unreachable;
  marshal = λ r. err (foreign "no item");
  unmarshal = λ item. err (foreign "no record");
  time_text = λ t. "2025-01-01T00:00:00Z";
}

abbrev libs : Libraries World (Unit {0})
libs = record {
  load_aws = λ local. ok tt;
  new_dynamo = λ endpoint. db;
  new_redis = λ addr. rdb;
  file_config = err (foreign "no configuration");
  in_cluster_config = ok tt;
  new_clientset = λ cfg. ok (api, leads);
  atoi = λ s. 10;
  http = record { build = λ m u. ok tt; send = λ m u c b. unreachable; encode_form = λ l. "" };
  decode = λ s. ok (record { is_ok = true; description = "" });
  clock = clock;
}

abbrev env : String → String
env key = ""

abbrev program : Started World
program = started libs env (some (api, leads))

starts : start libs env ≡ ok program
unfolding start clientset
starts = refl

start-Wired_example :
    Wired (asked_size libs env) program.handler program.background
    × (program.handler.cfg.pod_ready_wait < program.handler.cfg.wake_lock_ttl)
    × ((local_mode env ≡ true) ⊎ ((b : Background World) × (program.background ≡ some b)))
start-Wired_example = start-Wired libs env program starts
