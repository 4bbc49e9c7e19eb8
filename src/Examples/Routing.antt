-- ===== src/Examples/Routing.antt =====
-- The router in the small world: its requests for bob's wake reach the orchestrator.
use agentic_tenancy.Base.{
  ℕ, String, ◌≡◌, ◌≢◌, ◌↔◌, refl, Bool, true, false, some, none, inl, Result, ok, err, foreign,
  panic, arith, ◌==◌, string_eq, if◌then◌else◌, Action,
}
use agentic_tenancy.Base.Dict
use agentic_tenancy.Base.Dict.{Dict, lookup-insert, lookup-erase}
use agentic_tenancy.Services.{HttpReply, Frames}
use agentic_tenancy.Registry.Mock
use agentic_tenancy.Lock.{mock_acquire, mock_release}
use agentic_tenancy.Api.{Body, pod_ip_json}
use agentic_tenancy.Api.Wake.{wake}
use agentic_tenancy.Api.Wake.Frames.{RegistryFrames}
use agentic_tenancy.Api.Wake.Whole.{wake-Frames}
use agentic_tenancy.Api.Wake.Outcome.{RegisteredAt}
use agentic_tenancy.Telegram
use agentic_tenancy.Telegram.Slashes.{EndsInSlash, webhook_urls_agree}
use agentic_tenancy.Router.Registration
use agentic_tenancy.Router.{
  Router, RouterJson, wake_pod, cache_key, message_url, handle_telegram_update, extract_chat_id,
  get_bot_token,
}
use agentic_tenancy.Router.Cache.{Cache, IsCache, OnlyOwn, handle_telegram_update-OnlyEntry}
use agentic_tenancy.Router.Steps.{woken_at}
use agentic_tenancy.Router.Panics.{handle_telegram_update_returns, handle_telegram_update_panics}
use agentic_tenancy.Router.Orchestrator.{Serves, reply_of, cached_endpoints_lem}
use agentic_tenancy.Examples.World.{
  World, Core, registry-IsRegistry, look_in, IsFine, look, rdb, registry, start,
}
use agentic_tenancy.Examples.Cluster.{k8s, api-KubeFrames, api-PollIsSound}
use agentic_tenancy.Examples.Wake.{handler, still, acquires, releases}

abbrev encode : Body → String
encode (pod_ip_json ip) = ip
encode _ = ""

abbrev json : RouterJson
json = record {
  decode_chat = λ s. ok (record { message_chat = some 7; callback_chat = none });
  decode_text = λ s. ok (record { message = some (record { text = s; caption = "" }) });
  decode_pod_ip = λ s. ok s;
  decode_bot_token = λ s. ok s;
  decode_response = λ s. ok s;
  decode_object = λ s. err (foreign "no object");
  encode_message = λ s. s;
  encode_chat_message = λ chat s. s;
  encode_webhook = λ s. s;
  show_object = λ d. "map[]";
  error_text = λ e. "error";
}

abbrev wake_bob : String
wake_bob = "http://orchestrator/wake/bob"

abbrev answer : Bool → Action World (Result HttpReply)
answer true w = (ok (reply_of encode (wake handler "bob" w).0), (wake handler "bob" w).1)
answer false w = (ok (record { status = 200; body = "%zz" }), w)

-- `bad` is a URL that no request can be built for.
abbrev router_with : String → Router World
router_with bad = record {
  rdb = rdb;
  orchestrator_addr = "http://orchestrator";
  public_base_url = "https://router";
  http = record {
    build = λ m u. if u == bad then err (foreign "invalid URL escape") else ok tt;
    send = λ m u c b. answer (u == wake_bob);
    encode_form = λ l. "";
  };
  json = json;
}

abbrev router : Router World
router = record (router_with "") { http = record (router_with "").http { build = λ m u. ok tt } }

abbrev cache_in : Core → Cache
cache_in c j = Dict.lookup j c.keys

abbrev cache : World → Cache
cache w = cache_in w.core

rdb-IsCache : IsCache rdb cache
rdb-IsCache = record {
  get_frame = λ k. record { at = λ w. refl };
  set_done = λ k v ttl w h j. ground (arith, lookup-insert k j v w.core.keys);
  set_failed = λ k v ttl w e h. inl (λ j. cc);
  del_done = λ k w h j. ground (arith, lookup-erase k j w.core.keys);
  del_failed = λ k w e h. inl (λ j. cc);
}

registry_frames : RegistryFrames registry cache
unfolding Mock.get_tenant Mock.create_tenant Mock.update_status
registry_frames = record {
  gets = λ id. record { at = λ w. refl };
  creates = λ r. record { at = λ w. ground arith };
  sets_status = λ id s n ip. record { at = λ w. ground arith };
}

lock_frames : (id : String) (ttl : ℕ) → Frames cache (handler.lock.acquire_wake_lock id ttl)
unfolding mock_acquire
lock_frames id ttl = record { at = λ w. ground arith }

unlock_frames : (id : String) → Frames cache (handler.lock.release_wake_lock id)
unfolding mock_release
unlock_frames id = record { at = λ w. refl }

answer-Frames : (b : Bool) → Frames cache (answer b)
answer-Frames true = record {
  at = λ w.
      (wake-Frames handler cache (still cache_in) k8s (api-KubeFrames cache_in) registry_frames
          lock_frames unlock_frames refl "bob").at
        w;
}
answer-Frames false = record { at = λ w. refl }

sends : (m u c b : String) → Frames cache (router.http.send m u c b)
sends m u c b = answer-Frames (u == wake_bob)

handle_telegram_update-OnlyEntry_example :
    OnlyOwn router cache rdb-IsCache sends "bob"
      (λ ip. (wake_pod router "bob" (woken_at router "bob" "hello" start)).0 ≡ ok ip)
      start
      (handle_telegram_update router "bob" "hello" start).1
handle_telegram_update-OnlyEntry_example =
    handle_telegram_update-OnlyEntry router cache rdb-IsCache sends "bob" "hello" start

serves : Serves router handler encode "bob"
serves = record { wakes = λ w. refl; decodes = λ ip. refl }

cached_endpoints_lem_example :
    OnlyOwn router cache rdb-IsCache sends "bob"
      (λ ip.
        RegisteredAt look "bob" ip (wake handler "bob" (woken_at router "bob" "hello" start)).1)
      start
      (handle_telegram_update router "bob" "hello" start).1
cached_endpoints_lem_example =
    cached_endpoints_lem router handler encode "bob" serves IsFine look registry-IsRegistry
      (still look_in) acquires releases k8s (api-KubeFrames look_in) api-PollIsSound refl cache
      rdb-IsCache sends "hello" start

handle_telegram_update_returns_example :
    (handle_telegram_update router "bob" "hello" start).0 ≡ ok tt
handle_telegram_update_returns_example =
    handle_telegram_update_returns router "bob" (λ token. refl) refl "hello" start

abbrev bad_url : String
bad_url = "https://api.telegram.org/bot%zz/sendMessage"

abbrev exposed : Router World
exposed = router_with bad_url

no_endpoint : (exposed.rdb.get (cache_key exposed "bob") start).0 ≡ err (foreign "redis: nil")
unfolding Dict.lookup
no_endpoint = refl

has_chat : extract_chat_id exposed "hello" ≢ 0
unfolding extract_chat_id
has_chat h = absurd (omega arith)

token_is : (get_bot_token exposed "bob" start).0 ≡ "%zz"
unfolding get_bot_token
token_is = refl

has_token : (get_bot_token exposed "bob" start).0 ≢ ""
unfolding get_bot_token
has_token h = cc

refused :
    exposed.http.build "POST" (message_url exposed (get_bot_token exposed "bob" start).0)
    ≡ err (foreign "invalid URL escape")
unfolding get_bot_token
refused = refl

handle_telegram_update_panics_example :
    (handle_telegram_update exposed "bob" "hello" start).0 ≡ err (panic "nil request")
handle_telegram_update_panics_example =
    handle_telegram_update_panics exposed "bob" "hello" start (foreign "redis: nil")
      (foreign "invalid URL escape") no_endpoint has_chat has_token refused

webhook_urls_agree_example :
    (Telegram.webhook_url
        (Telegram.new router.http (λ s. err (foreign "no reply")) router.public_base_url)
        "bob"
      ≡ Registration.webhook_url router "bob")
    ↔ ¬ EndsInSlash router.public_base_url
webhook_urls_agree_example =
    webhook_urls_agree router.http (λ s. err (foreign "no reply")) router "bob"
