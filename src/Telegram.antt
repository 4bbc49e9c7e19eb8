-- ===== src/Telegram.antt =====
-- internal/telegram/webhook.go: the client of the Telegram Bot API that manages webhooks.
pub mod Slashes
use agentic_tenancy.Base.{
  String, ◌<>◌, Bool, [], ◌∷◌, Result, ok, err, msg, wrap, Action, pure, ◌>>=◌, on_ok, ◌==◌,
  string_eq, if◌then◌else◌, ◌&&◌,
}
use agentic_tenancy.Services.{Http, HttpReply}

-- `apiResponse`
pub record ApiResponse : Type 0 where
  pub is_ok : Bool
  pub description : String

-- `json.NewDecoder(body).Decode(&result)` is `decode`.
pub record TelegramClient (W : Type 0) : Type 0 where
  pub http : Http W
  pub decode : String → Result ApiResponse
  pub router_base_url : String

-- `strings.TrimRight(s, "/")`
unfoldable pub trim_right : String → String
trim_right String.[] = ""
trim_right (String.◌∷◌ c s) =
    let rest = trim_right s in
    if rest == "" && String.◌∷◌ c String.[] == "/" then "" else String.◌∷◌ c rest

-- `New`
unfoldable pub new :
    {W : Type 0} → Http W → (String → Result ApiResponse) → String → TelegramClient W
unfolding trim_right
new http decode url = record { http = http; decode = decode; router_base_url = trim_right url }

abbrev pub form_type : String
form_type = "application/x-www-form-urlencoded"

abbrev pub bot_url : String → String → String
bot_url bot_token method = "https://api.telegram.org/bot" <> bot_token <> "/" <> method

module _ {W : Type 0} (c : TelegramClient W) where
  -- The reply is decoded, and its `ok` flag read.
  abbrev accepted : HttpReply → Action W (Result (Unit {0}))
  accepted reply = elim (c.decode reply.body) [
    | err e ↦ pure (err (wrap "decode response" e))
    | ok result ↦
        pure (if result.is_ok then ok tt else err (msg ("telegram error: " <> result.description)))
  ]

  abbrev post : String → String → String → Action W (Result (Unit {0}))
  post name url body = elim (c.http.build "POST" url) [
    | err e ↦ pure (err (wrap "build request" e))
    | ok tt ↦ c.http.send "POST" url form_type body >>= on_ok (wrap name) accepted
  ]

  abbrev pub webhook_url : String → String
  webhook_url tenant_id = c.router_base_url <> "/tg/" <> tenant_id

  unfoldable pub register_webhook : String → String → Action W (Result (Unit {0}))
  register_webhook bot_token tenant_id =
      post "setWebhook" (bot_url bot_token "setWebhook")
        (c.http.encode_form (("url", webhook_url tenant_id) ∷ []))

  unfoldable pub delete_webhook : String → Action W (Result (Unit {0}))
  delete_webhook bot_token =
      if bot_token == ""
      then pure (ok tt)
      else post "deleteWebhook" (bot_url bot_token "deleteWebhook") "drop_pending_updates=false"
