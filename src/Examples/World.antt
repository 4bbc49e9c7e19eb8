-- ===== src/Examples/World.antt =====
-- A small world: a clock, the tenants, the locks, the keys of a Redis and a cluster.
use agentic_tenancy.Base.{
  ℕ, ◌+◌, String, refl, inl, Bool, true, false, Option, none, some, List, [], ◌∷◌, foreign, Result,
  ok, err, Action, arith, string_eq,
}
use agentic_tenancy.Base.Dict
use agentic_tenancy.Base.Dict.{Dict, lookup-insert, lookup-erase}
use agentic_tenancy.Services.{Clock, Redis, Slot, Frames}
use agentic_tenancy.Registry.{TenantRecord, RegistryClient, running, idle}
use agentic_tenancy.Registry.Laws.{Directory, IsRegistry}
use agentic_tenancy.Registry.Mock.{mock_client}
use agentic_tenancy.Registry.Mock.Refines.{mock_client-IsRegistry, IsGood}
use agentic_tenancy.Kube.Objects.{Pod, Deployment}
use agentic_tenancy.Lock.{Locker, mock_locker, is_locked}
use agentic_tenancy.Lock.Laws.{IsRedis}

-- What the program stores.
pub record Core : Type 0 where
  pub tenants : Dict TenantRecord
  pub locks : Dict Bool
  pub keys : Dict String

pub record World : Type 0 where
  pub core : Core
  pub now : ℕ
  pub pods : List Pod
  pub deployment : Option Deployment

abbrev pub clock : Clock World
clock = record {
  now = λ w. (w.now, w);
  pause = λ d w. (ok tt, record w { now = w.now + d });
  is_cancelled = λ w. (false, w);
}

abbrev pub tenants : Slot World (Dict TenantRecord)
tenants = record {
  view = λ w. w.core.tenants;
  put = λ d w. record w { core = record w.core { tenants = d } };
  view-put = λ d w. refl;
}

abbrev pub locks : Slot World (Dict Bool)
locks = record {
  view = λ w. w.core.locks;
  put = λ d w. record w { core = record w.core { locks = d } };
  view-put = λ d w. refl;
}

abbrev pub look : World → Directory
look w j = Dict.lookup j w.core.tenants

abbrev pub held : World → String → Bool
held w id = is_locked (Dict.lookup id w.core.locks)

abbrev pub registry : RegistryClient World
registry = mock_client clock tenants

pub steady : Frames (λ (w : World). w.core.tenants) clock.now
steady = record { at = λ w. refl }

abbrev pub IsFine : World → Type 0
IsFine = IsGood clock tenants steady

pub registry-IsRegistry : IsRegistry registry IsFine look
registry-IsRegistry = mock_client-IsRegistry clock tenants steady

abbrev pub look_in : Core → Directory
look_in c j = Dict.lookup j c.tenants

abbrev pub locker : Locker World
locker = mock_locker locks

abbrev has_key : Option String → Bool
has_key none = false
has_key (some _) = true

abbrev pub exists : World → String → Bool
exists w k = has_key (Dict.lookup k w.core.keys)

abbrev read_key : Option String → Result String
read_key none = err (foreign "redis: nil")
read_key (some v) = ok v

abbrev set_nx : Bool → String → String → Action World (Result Bool)
set_nx true k v w = (ok false, w)
set_nx false k v w =
    (ok true, record w { core = record w.core { keys = Dict.insert k v w.core.keys } })

-- A Redis in which no key expires.
abbrev pub rdb : Redis World
rdb = record {
  set_nx = λ k v ttl w. set_nx (exists w k) k v w;
  get = λ k w. (read_key (Dict.lookup k w.core.keys), w);
  set = λ k v ttl w.
      (ok tt, record w { core = record w.core { keys = Dict.insert k v w.core.keys } });
  del = λ k w. (ok tt, record w { core = record w.core { keys = Dict.erase k w.core.keys } });
}

pub rdb-IsRedis : IsRedis rdb exists
rdb-IsRedis = record {
  set_nx_true = λ k v ttl w h. (ground arith, λ j. ground (arith, lookup-insert k j v w.core.keys));
  set_nx_false = λ k v ttl w h. (ground arith, λ j. ground arith);
  set_nx_failed = λ k v ttl w e h. inl (λ j. ground arith);
  del_done = λ k w h j. ground (arith, lookup-erase k j w.core.keys);
  del_failed = λ k w e h. inl (λ j. cc);
}

abbrev pub alice : TenantRecord
alice = record {
  tenant_id = "alice";
  status = running;
  pod_name = "zeroclaw-alice";
  pod_ip = "10.0.0.7";
  namespace = "tenants";
  s3_prefix = "tenants/alice/";
  bot_token = "secret";
  created_at = 0;
  last_active_at = 0;
  idle_timeout_s = 600;
}

abbrev pub bob : TenantRecord
bob = record alice {
  tenant_id = "bob";
  status = idle;
  pod_name = "";
  pod_ip = "";
  s3_prefix = "tenants/bob/";
}

abbrev pub start : World
start = record {
  core = record { tenants = ("alice", alice) ∷ ("bob", bob) ∷ []; locks = []; keys = [] };
  now = 1000000000000;
  pods = [];
  deployment = none;
}
