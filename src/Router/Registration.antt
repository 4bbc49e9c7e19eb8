-- ===== src/Router/Registration.antt =====
-- cmd/router/main.go: `RegisterWebhook` and its handler.
use agentic_tenancy.Base.{
  String, ◌<>◌, Bool, false, Option, some, [], Result, ok, err, msg, Action, pure, ◌>>=◌, ◌==◌,
  string_eq, if◌then◌else◌,
}
use agentic_tenancy.Base.Dict
use agentic_tenancy.Base.Dict.{Dict}
use agentic_tenancy.Services.{HttpReply}
use agentic_tenancy.Telegram.{bot_url}
use agentic_tenancy.Api.{Response, http_error, text}
use agentic_tenancy.Router.{Router, JsonValue, json_bool, json_type, request, get_bot_token}

abbrev pub flag_of : Option JsonValue → Bool
flag_of (some (json_bool b)) = b
flag_of _ = false

abbrev object_of : Result (Dict JsonValue) → Dict JsonValue
object_of (ok object) = object
object_of (err _) = []

module _ {W : Type 0} (rt : Router W) where
  open rt use {public_base_url, json}

  abbrev pub webhook_url : String → String
  webhook_url tenant_id = public_base_url <> "/tg/" <> tenant_id

  abbrev pub registered_reply : Result HttpReply → Result (Unit {0})
  registered_reply (err e) = err e
  registered_reply (ok reply) =
      let object = object_of (json.decode_object reply.body) in
      if flag_of (Dict.lookup "ok" object)
      then ok tt
      else err (msg ("setWebhook failed: " <> json.show_object object))

  unfoldable pub register_webhook : String → String → Action W (Result (Unit {0}))
  register_webhook bot_token tenant_id =
      request rt "POST" (bot_url bot_token "setWebhook") json_type
        (json.encode_webhook (webhook_url tenant_id))
      >>= λ replied. pure (registered_reply replied)

  abbrev pub registered_answer : String → Result (Unit {0}) → Response
  registered_answer tenant_id (err e) = http_error 500 (json.error_text e)
  registered_answer tenant_id (ok tt) = record {
    status = 200;
    body = text ("{\"ok\":true,\"webhook_url\":\"" <> webhook_url tenant_id <> "\"}");
  }

  abbrev register_with : String → String → Action W Response
  register_with tenant_id token =
      if token == ""
      then pure (http_error 404 "tenant not found or no bot_token")
      else (register_webhook token tenant_id >>= λ done. pure (registered_answer tenant_id done))

  unfoldable pub register_webhook_handler : String → Action W Response
  register_webhook_handler tenant_id = get_bot_token rt tenant_id >>= register_with tenant_id
