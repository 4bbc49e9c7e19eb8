-- ===== src/Cli/Commands.antt =====
-- cmd/ztm/cmd: the commands of tenants and webhooks.
use agentic_tenancy.Base.{
  ℕ, String, ◌<>◌, Bool, Option, none, some, List, [], ◌∷◌, ◌++◌, map, Error, Result, ok, err, msg,
  wrap, Action, pure, ◌==◌, string_eq, if◌then◌else◌,
}
use agentic_tenancy.Base.Int64.{Int64}
use agentic_tenancy.Base.Text.{signed_decimal}
use agentic_tenancy.Cli.Types.{Tenant, WebhookResponse, ApiClient}
use agentic_tenancy.Cli.Output.{
  Line, to_stdout, Report, done, failed, after_lines, Styler, print_success, print_error,
  print_info, fprint_success, fprint_info,
}

-- The global flags, as cobra has parsed them.
pub record Flags : Type 0 where
  pub namespace : String
  pub context : String
  pub output_format : String
  pub no_color : Bool

-- The formats of the standard library: `%v` of an error, `time.Format`, the columns of
-- `text/tabwriter`, and `json.MarshalIndent`, that `FormatJSON` calls.
pub record Formats : Type 0 where
  pub error_text : Error → String
  pub rfc3339 : ℕ → String
  pub date_time : ℕ → String
  pub columns : List (List String) → List String
  pub tenant_json : Tenant → Result String
  pub tenants_json : List Tenant → Result String
  pub webhook_json : WebhookResponse → Result String

abbrev seconds_line : Tenant → Line
seconds_line t = to_stdout ("Idle Timeout:  " <> signed_decimal t.idle_timeout_s <> "s")

abbrev id_line : Tenant → Line
id_line t = to_stdout ("Tenant ID:     " <> t.tenant_id)

abbrev status_line : Tenant → Line
status_line t = to_stdout ("Status:        " <> t.status)

abbrev instant_line : Formats → String → Option ℕ → List Line
instant_line fmt label none = []
instant_line fmt label (some at) = to_stdout (label <> fmt.rfc3339 at) ∷ []

abbrev text_line : String → String → List Line
text_line label value = if value == "" then [] else to_stdout (label <> value) ∷ []

-- The JSON that a command prints last.
abbrev print_json : Result String → Report
print_json (ok json_str) = done (to_stdout json_str ∷ [])
print_json (err e) = failed [] (wrap "failed to format output" e)

abbrev quoted : String → String
quoted tenant_id = "'" <> tenant_id <> "'"

module _ {W : Type 0} (client : ApiClient W) (flags : Flags) (fmt : Formats) where
  abbrev styler : Styler
  styler = record { no_color = flags.no_color }

  -- The error message of a command whose call failed, and the error it returns; or what follows.
  abbrev reported : {A : Type 0} → String → (A → Report) → Result A → Report
  reported what k (ok a) = k a
  reported what k (err e) =
      failed (print_error styler ("Failed to " <> what <> ": " <> fmt.error_text e) ∷ []) e

  abbrev then_report : {A : Type 0} → Action W (Result A) → (Result A → Report) → Action W Report
  then_report call k w = let (r, w') = call w in (k r, w')

  -- The value in the format that the flag names.
  abbrev shown : Result String → List Line → Report
  shown json_str table = if flags.output_format == "json" then print_json json_str else done table

  abbrev with_line : Line → Report → Report
  with_line l r = record { lines = l ∷ r.lines; ended = r.ended }

  abbrev created_table : Tenant → List Line
  created_table t =
      to_stdout ""
      ∷ id_line t
      ∷ status_line t
      ∷ seconds_line t
      ∷ instant_line fmt "Created At:    " t.created_at

  unfoldable pub tenant_create : String → String → Int64 → Action W Report
  tenant_create tenant_id bot_token idle_timeout =
      after_lines (print_info styler ("Creating tenant " <> quoted tenant_id <> "...") ∷ []) (
        then_report
          (client.create_tenant (record {
            tenant_id = tenant_id;
            bot_token = bot_token;
            idle_timeout_s = idle_timeout;
          }))
          (reported "create tenant" (λ t.
            with_line (print_success styler ("Tenant " <> quoted tenant_id <> " created"))
              (shown (fmt.tenant_json t) (created_table t)))))

  abbrev list_row : Tenant → List String
  list_row t =
      t.tenant_id
      ∷ t.status
      ∷ elim t.last_active_at [ none ↦ "never" | some at ↦ fmt.date_time at ]
      ∷ (signed_decimal t.idle_timeout_s <> "s")
      ∷ []

  abbrev list_head : List String
  list_head = "TENANT ID" ∷ "STATUS" ∷ "LAST ACTIVE" ∷ "IDLE TIMEOUT" ∷ []

  unfoldable pub tenant_list : Action W Report
  tenant_list = after_lines (fprint_info styler to_stdout "Listing tenants..." ∷ []) (
      then_report client.list_tenants (
        reported "list tenants" (λ ts.
          shown (fmt.tenants_json ts) (map to_stdout (fmt.columns (list_head ∷ map list_row ts))))))

  abbrev details : Tenant → List Line
  details t =
      id_line t
      ∷ status_line t
      ∷ seconds_line t
      ∷ (text_line "Pod Name:      " t.pod_name
          ++ text_line "Pod IP:        " t.pod_ip
          ++ instant_line fmt "Last Active:   " t.last_active_at
          ++ instant_line fmt "Created At:    " t.created_at)

  unfoldable pub tenant_get : String → Action W Report
  tenant_get tenant_id =
      then_report (client.get_tenant tenant_id)
        (reported "get tenant" (λ t. shown (fmt.tenant_json t) (details t)))

  unfoldable pub tenant_delete : String → Action W Report
  tenant_delete tenant_id =
      after_lines
        (fprint_info styler to_stdout ("Deleting tenant " <> quoted tenant_id <> "...") ∷ [])
        (then_report (client.delete_tenant tenant_id) (
          reported "delete tenant" (λ _.
            done (
              fprint_success styler to_stdout ("Tenant " <> quoted tenant_id <> " deleted") ∷ []))))

  -- A flag that was not given is `none`. `PreRunE` comes first.
  unfoldable pub tenant_update : String → Option String → Option Int64 → Action W Report
  tenant_update tenant_id none none =
      pure (failed [] (msg "at least one of --bot-token or --idle-timeout must be specified"))
  tenant_update tenant_id bot_token idle_timeout =
      after_lines (print_info styler ("Updating tenant " <> quoted tenant_id <> "...") ∷ []) (
        then_report
          (client.update_tenant tenant_id
            (record { bot_token = bot_token; idle_timeout_s = idle_timeout }))
          (reported "update tenant" (λ t.
            with_line (print_success styler ("Tenant " <> quoted tenant_id <> " updated")) (
              shown (fmt.tenant_json t)
                (to_stdout "" ∷ id_line t ∷ status_line t ∷ seconds_line t ∷ [])))))

  abbrev webhook_table : WebhookResponse → List Line
  webhook_table resp =
      (if resp.url == "" then [] else to_stdout "" ∷ to_stdout ("Webhook URL: " <> resp.url) ∷ [])
      ++ text_line "Message:     " resp.message

  unfoldable pub webhook_register : String → Action W Report
  webhook_register tenant_id =
      after_lines
        (print_info styler ("Registering webhook for tenant " <> quoted tenant_id <> "...") ∷ [])
        (then_report (client.register_webhook tenant_id) (
          reported "register webhook" (λ resp.
            with_line (print_success styler "Webhook registered")
              (shown (fmt.webhook_json resp) (webhook_table resp)))))
