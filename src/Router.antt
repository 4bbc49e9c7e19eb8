-- ===== src/Router.antt =====
-- cmd/router/main.go: the router, which takes Telegram's updates to the pods of the tenants.
pub mod Registration
pub mod Entry
pub mod Steps
pub mod Cache
pub mod Panics
pub mod Orchestrator
use agentic_tenancy.Base.{
  ℕ, ◌*◌, String, ◌<>◌, Bool, true, false, not, ◌&&◌, Option, none, some, List, [], ◌∷◌, Result, ok,
  err, Error, msg, wrap, panic, Action, pure, ◌>>=◌, ◌>>◌, on_ok, ◌==◌, nat_eq, string_eq,
  if◌then◌else◌,
}
use agentic_tenancy.Base.Dict
use agentic_tenancy.Base.Dict.{Dict}
use agentic_tenancy.Base.Int64.{Int64}
use agentic_tenancy.Base.Text.{decimal}
use agentic_tenancy.Kube.Pods.{second}
use agentic_tenancy.Services.{Http, HttpReply, Redis}
use agentic_tenancy.Telegram.{bot_url}
use agentic_tenancy.Api.{Response, http_error, text, empty}

abbrev pub endpoint_cache_ttl : ℕ
endpoint_cache_ttl = 300 * second

abbrev pub cache_key_prefix : String
cache_key_prefix = "router:endpoint:"

-- The structs into which an update is decoded, once for its chat and once for its text. A pointer
-- is an option.
pub record ChatUpdate : Type 0 where
  pub message_chat : Option Int64
  pub callback_chat : Option (Option Int64)

pub record TextMessage : Type 0 where
  pub text : String
  pub caption : String

pub record TextUpdate : Type 0 where
  pub message : Option TextMessage

pub data JsonValue : Type 0 where
  json_bool : Bool → JsonValue
  other_json : JsonValue

-- `encoding/json` at the types that the router decodes and encodes, where a field that is missing
-- is the zero value, and the texts that `fmt` makes for its errors.
pub record RouterJson : Type 0 where
  pub decode_chat : String → Result ChatUpdate
  pub decode_text : String → Result TextUpdate
  pub decode_pod_ip : String → Result String
  pub decode_bot_token : String → Result String
  pub decode_response : String → Result String
  pub decode_object : String → Result (Dict JsonValue)
  pub encode_message : String → String
  pub encode_chat_message : Int64 → String → String
  pub encode_webhook : String → String
  pub show_object : Dict JsonValue → String
  pub error_text : Error → String

-- `Router`
pub record Router (W : Type 0) : Type 0 where
  pub rdb : Redis W
  pub orchestrator_addr : String
  pub public_base_url : String
  pub http : Http W
  pub json : RouterJson

abbrev pub starting_text : String
starting_text = "⏳ Starting up, please wait a moment..."

abbrev pub failed_text : String
failed_text = "❌ Failed to start. Please try again."

abbrev pub json_type : String
json_type = "application/json"

abbrev pub chat_of : Result ChatUpdate → Int64
chat_of (err _) = 0
chat_of (ok update) = elim update.message_chat [
  | some id ↦ id
  | none ↦ elim update.callback_chat [ some (some id) ↦ id | some none ↦ 0 | none ↦ 0 ]
]

abbrev pub text_of : Result TextUpdate → String
text_of (err _) = ""
text_of (ok update) = elim update.message [
  | none ↦ ""
  | some message ↦ if not (message.text == "") then message.text else message.caption
]

-- `ok, _ := result["ok"].(bool)`
module _ {W : Type 0} (rt : Router W) where
  open rt use {rdb, orchestrator_addr, public_base_url, http, json}

  abbrev pub cache_key : String → String
  cache_key tenant_id = cache_key_prefix <> tenant_id

  unfoldable pub extract_chat_id : String → Int64
  extract_chat_id body = chat_of (json.decode_chat body)

  unfoldable pub extract_message_text : String → String
  extract_message_text body = text_of (json.decode_text body)

  -- `http.Client.Post` and `Get`: the request may be refused before it is sent.
  abbrev pub send_built :
      String → String → String → String → Result (Unit {0}) → Action W (Result HttpReply)
  send_built method url content_type body (err e) = pure (err e)
  send_built method url content_type body (ok tt) = http.send method url content_type body

  abbrev pub request : String → String → String → String → Action W (Result HttpReply)
  request method url content_type body =
      send_built method url content_type body (http.build method url)

  -- `req, _ := http.NewRequestWithContext(…)` and `httpClient.Do(req)`: where the request cannot be
  -- built, `req` is nil, and its use is a run-time panic. How the request ends is ignored.
  abbrev pub must_send :
      String → String → String → String → Result (Unit {0}) → Action W (Result (Unit {0}))
  must_send method url content_type body (err _) = pure (err (panic "nil request"))
  must_send method url content_type body (ok tt) =
      http.send method url content_type body >> pure (ok tt)

  abbrev pub message_url : String → String
  message_url bot_token = bot_url bot_token "sendMessage"

  unfoldable pub send_telegram_message : String → Int64 → String → Action W (Result (Unit {0}))
  send_telegram_message bot_token chat_id message =
      must_send "POST" (message_url bot_token) json_type (json.encode_chat_message chat_id message)
        (http.build "POST" (message_url bot_token))

  abbrev pub activity_url : String → String
  activity_url tenant_id = orchestrator_addr <> "/tenants/" <> tenant_id <> "/activity"

  unfoldable pub update_activity : String → Action W (Result (Unit {0}))
  update_activity tenant_id =
      must_send "PUT" (activity_url tenant_id) "" "" (http.build "PUT" (activity_url tenant_id))

  abbrev pub token_of : Result HttpReply → String
  token_of (err _) = ""
  token_of (ok reply) = elim (json.decode_bot_token reply.body) [ ok token ↦ token | err _ ↦ "" ]

  unfoldable pub get_bot_token : String → Action W String
  get_bot_token tenant_id =
      request "GET" (orchestrator_addr <> "/tenants/" <> tenant_id <> "/bot_token") "" ""
      >>= λ replied. pure (token_of replied)

  abbrev pub wake_url : String → String
  wake_url tenant_id = orchestrator_addr <> "/wake/" <> tenant_id

  -- The part of `wakePod` after the request.
  abbrev pub pod_ip_of : Result HttpReply → Result String
  pod_ip_of (err e) = err (wrap "orchestrator wake" e)
  pod_ip_of (ok reply) =
      if reply.status == 200
      then elim (json.decode_pod_ip reply.body) [
        | ok pod_ip ↦ ok pod_ip
        | err e ↦ err (wrap "decode wake response" e)
      ]
      else err (msg ("wake status " <> decimal reply.status <> ": " <> reply.body))

  unfoldable pub wake_pod : String → Action W (Result String)
  wake_pod tenant_id =
      request "POST" (wake_url tenant_id) json_type "" >>= λ replied. pure (pod_ip_of replied)

  -- `redis.Nil` is an error too.
  unfoldable pub get_cached_pod_ip : String → Action W (Result String)
  get_cached_pod_ip tenant_id = rdb.get (cache_key tenant_id)

  -- `if chatID != 0 && botToken != "" { … }`
  unfoldable pub notify : Int64 → String → String → Action W (Result (Unit {0}))
  notify chat_id bot_token message =
      if not (chat_id == 0) && not (bot_token == "")
      then send_telegram_message bot_token chat_id message
      else pure (ok tt)

  -- The answer of the pod, sent back to the chat.
  unfoldable pub send_answer : String → String → Result String → Action W (Result (Unit {0}))
  send_answer tenant_id body (err _) = pure (ok tt)
  send_answer tenant_id body (ok answer) =
      if answer == ""
      then pure (ok tt)
      else (get_bot_token tenant_id >>= λ token. notify (extract_chat_id body) token answer)

  unfoldable pub after_forward : String → String → Result HttpReply → Action W (Result (Unit {0}))
  after_forward tenant_id body (err _) = rdb.del (cache_key tenant_id) >> pure (ok tt)
  after_forward tenant_id body (ok reply) =
      send_answer tenant_id body (json.decode_response reply.body)

  abbrev pub pod_url : String → String
  pod_url pod_ip = "http://" <> pod_ip <> ":3000/webhook"

  unfoldable pub forward_built :
      String → String → String → Result (Unit {0}) → Action W (Result (Unit {0}))
  forward_built pod_ip tenant_id body (err _) = pure (ok tt)
  forward_built pod_ip tenant_id body (ok tt) =
      http.send "POST" (pod_url pod_ip) json_type (json.encode_message (extract_message_text body))
      >>= after_forward tenant_id body

  unfoldable pub forward_to_pod : String → String → String → Action W (Result (Unit {0}))
  forward_to_pod pod_ip tenant_id body =
      if extract_message_text body == ""
      then pure (ok tt)
      else forward_built pod_ip tenant_id body (http.build "POST" (pod_url pod_ip))

  -- `rt.forwardToPod(…)` and `rt.updateActivity(…)`
  unfoldable pub deliver : String → String → String → Action W (Result (Unit {0}))
  deliver tenant_id body pod_ip =
      forward_to_pod pod_ip tenant_id body >>= on_ok (λ e. e) (λ _. update_activity tenant_id)

  unfoldable pub after_wake :
      String → String → String → Result String → Action W (Result (Unit {0}))
  after_wake tenant_id body token (err _) = notify (extract_chat_id body) token failed_text
  after_wake tenant_id body token (ok pod_ip) =
      rdb.set (cache_key tenant_id) pod_ip endpoint_cache_ttl >> deliver tenant_id body pod_ip

  unfoldable pub start_up : String → String → Action W (Result (Unit {0}))
  start_up tenant_id body = get_bot_token tenant_id >>= λ token.
      notify (extract_chat_id body) token starting_text
      >>= on_ok (λ e. e) (λ _. wake_pod tenant_id >>= after_wake tenant_id body token)

  unfoldable pub with_cached : String → String → Result String → Action W (Result (Unit {0}))
  with_cached tenant_id body (err _) = start_up tenant_id body
  with_cached tenant_id body (ok pod_ip) =
      if pod_ip == "" then start_up tenant_id body else deliver tenant_id body pod_ip

  -- An error is a panic, which ends the process: nothing recovers from it.
  unfoldable pub handle_telegram_update : String → String → Action W (Result (Unit {0}))
  handle_telegram_update tenant_id body = get_cached_pod_ip tenant_id >>= with_cached tenant_id body

  -- The response, and the goroutine that is started: `none` where there is none. `body` is what
  -- reading the first mebibyte of the request's body gives.
  unfoldable pub webhook_handler :
      String → Result String → Response × Option (Action W (Result (Unit {0})))
  webhook_handler tenant_id body =
      if tenant_id == "" then (http_error 400 "tenantID required", none) else elim body [
        | err _ ↦ (http_error 400 "read body", none)
        | ok update ↦
            (record { status = 200; body = empty }, some (handle_telegram_update tenant_id update))
      ]
