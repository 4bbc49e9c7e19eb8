-- ===== src/Registry/Dynamo.antt =====
-- internal/registry/registry.go: `DynamoClient`, over the client of the AWS SDK.
pub mod Items
use agentic_tenancy.Base.{
  ℕ, ◌-◌, String, Option, none, some, List, [], ◌∷◌, Result, ok, err, wrap, Action, pure, ◌>>=◌,
  on_ok,
}
use agentic_tenancy.Base.Int64.{Int64}
use agentic_tenancy.Base.Text.{signed_decimal}
use agentic_tenancy.Base.Dict.{Dict}
use agentic_tenancy.Registry.{TenantStatus, status_text, running, TenantRecord, RegistryClient}
use agentic_tenancy.Services.{Clock}

-- `types.AttributeValueMemberS` and `types.AttributeValueMemberN`
pub data Attribute : Type 0 where
  text_value number_value : String → Attribute

abbrev pub Item : Type 0
Item = Dict Attribute

-- The condition expressions: none, `attribute_exists(tenant_id)`, `attribute_not_exists(tenant_id)`.
pub data Condition : Type 0 where
  unconditional if_exists if_not_exists : Condition

-- The filter expressions of the three scans, with their values.
pub data Filter : Type 0 where
  has_status_unless_id : String → Filter
  status_is : String → Filter
  status_is_and_active_before : String → String → Filter

-- The calls of `dynamodb.Client` on a table, whose key is `tenant_id`; an update sets attributes.
-- With them `attributevalue.MarshalMap` and `UnmarshalMap`, the RFC 3339 text of an instant.
pub record Dynamo (W : Type 0) : Type 0 where
  pub get_item : String → String → Action W (Result (Option Item))
  pub put_item : String → Item → Condition → Action W (Result (Unit {0}))
  pub update_item :
      String → String → List (String × Attribute) → Condition → Action W (Result (Unit {0}))
  pub scan : String → Filter → Action W (Result (List Item))
  pub delete_item : String → String → Action W (Result (Unit {0}))
  pub marshal : TenantRecord → Result Item
  pub unmarshal : Item → Result TenantRecord
  pub time_text : ℕ → String

-- `DynamoClient`; the clock is the process's.
pub record DynamoClient (W : Type 0) : Type 0 where
  pub db : Dynamo W
  pub table_name : String
  pub clock : Clock W

module _ {W : Type 0} (c : DynamoClient W) where
  open c.db use {get_item, put_item, update_item, scan, delete_item, marshal, unmarshal, time_text}

  abbrev decoded : Option Item → Action W (Result (Option TenantRecord))
  decoded none = pure (ok none)
  decoded (some item) =
      on_ok (wrap "unmarshal tenant") (λ rec. pure (ok (some rec))) (unmarshal item)

  unfoldable pub get_tenant : String → Action W (Result (Option TenantRecord))
  get_tenant tenant_id = get_item c.table_name tenant_id >>= on_ok (wrap "dynamodb GetItem") decoded

  unfoldable pub create_tenant : TenantRecord → Action W (Result (Unit {0}))
  create_tenant rec =
      on_ok (wrap "marshal tenant")
        (λ item.
          put_item c.table_name item if_not_exists
          >>= on_ok (wrap "dynamodb PutItem") (λ _. pure (ok tt)))
        (marshal rec)

  abbrev pub status_changes : TenantStatus → String → String → ℕ → List (String × Attribute)
  status_changes status pod_name pod_ip t =
      ("status", text_value (status_text status))
      ∷ ("pod_name", text_value pod_name)
      ∷ ("pod_ip", text_value pod_ip)
      ∷ ("last_active_at", text_value (time_text t))
      ∷ []

  unfoldable pub update_status :
      String → TenantStatus → String → String → Action W (Result (Unit {0}))
  update_status tenant_id status pod_name pod_ip = c.clock.now >>= λ t.
      update_item c.table_name tenant_id (status_changes status pod_name pod_ip t) unconditional
      >>= on_ok (wrap "dynamodb UpdateItem") (λ _. pure (ok tt))

  unfoldable pub update_activity : String → Action W (Result (Unit {0}))
  update_activity tenant_id = c.clock.now >>= λ t.
      update_item c.table_name tenant_id (("last_active_at", text_value (time_text t)) ∷ [])
        unconditional

  unfoldable pub update_bot_token : String → String → Action W (Result (Unit {0}))
  update_bot_token tenant_id bot_token =
      update_item c.table_name tenant_id (("bot_token", text_value bot_token) ∷ []) if_exists

  unfoldable pub update_idle_timeout : String → Int64 → Action W (Result (Unit {0}))
  update_idle_timeout tenant_id timeout_s =
      update_item c.table_name tenant_id
        (("idle_timeout_s", number_value (signed_decimal timeout_s)) ∷ []) if_exists

  abbrev keep_decoded : Result TenantRecord → List TenantRecord → List TenantRecord
  keep_decoded (ok rec) rest = rec ∷ rest
  keep_decoded (err _) rest = rest

  -- The loops over the items of a scan: an item that does not decode is left out.
  unfoldable pub decode_all : List Item → List TenantRecord
  decode_all [] = []
  decode_all (item ∷ rest) = keep_decoded (unmarshal item) (decode_all rest)

  unfoldable pub list_all : Action W (Result (List TenantRecord))
  list_all =
      scan c.table_name (has_status_unless_id "warm-pool-meta")
      >>= on_ok (λ e. e) (λ items. pure (ok (decode_all items)))

  unfoldable pub list_by_status : TenantStatus → Action W (Result (List TenantRecord))
  list_by_status status =
      scan c.table_name (status_is (status_text status))
      >>= on_ok (wrap "dynamodb Scan") (λ items. pure (ok (decode_all items)))

  -- An instant is a number here, so that none is before 1970.
  unfoldable pub list_idle_tenants : ℕ → Action W (Result (List TenantRecord))
  list_idle_tenants older_than = c.clock.now >>= λ t.
      scan c.table_name
        (status_is_and_active_before (status_text running) (time_text (t - older_than)))
      >>= on_ok (wrap "dynamodb Scan") (λ items. pure (ok (decode_all items)))

  unfoldable pub delete_tenant : String → Action W (Result (Unit {0}))
  delete_tenant tenant_id = delete_item c.table_name tenant_id

  abbrev pub dynamo_client : RegistryClient W
  dynamo_client = record {
    get_tenant = get_tenant;
    create_tenant = create_tenant;
    update_status = update_status;
    update_activity = update_activity;
    update_bot_token = update_bot_token;
    update_idle_timeout = update_idle_timeout;
    list_all = list_all;
    list_by_status = list_by_status;
    list_idle_tenants = list_idle_tenants;
    delete_tenant = delete_tenant;
  }
