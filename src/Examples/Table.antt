-- ===== src/Examples/Table.antt =====
-- A small table of the database: the world is its items.
use agentic_tenancy.Base.{
  ℕ, String, ◌≡◌, ◌≢◌, refl, ap, subst, Bool, true, false, Option, none, some, [], ◌∷◌, Error,
  foreign, Result, ok, err, arith, Action,
}
use agentic_tenancy.Base.Dict
use agentic_tenancy.Base.Dict.{Dict, lookup-insert}
use agentic_tenancy.Registry.{TenantRecord, status_text}
use agentic_tenancy.Registry.Dynamo.{
  Attribute, text_value, Item, Condition, if_exists, if_not_exists, Dynamo, DynamoClient,
  create_tenant, update_activity,
}
use agentic_tenancy.Registry.Dynamo.Items.{
  with_attributes, or_key, Table, Put, IsTable, update_activity_makes_ghost,
}
use agentic_tenancy.Examples.World.{alice}

abbrev Items : Type 0
Items = Dict Item

abbrev refused : Error
refused = foreign "ConditionalCheckFailedException"

abbrev text_of : Option Attribute → String
text_of (some (text_value s)) = s
text_of _ = ""

unfoldable key_of : Item → String
key_of item = text_of (Dict.lookup "tenant_id" item)

abbrev permitted : Condition → Option Item → Bool
permitted if_exists none = false
permitted if_not_exists (some _) = false
permitted _ _ = true

abbrev written : Bool → String → Item → Action Items (Result (Unit {0}))
written false key item w = (err refused, w)
written true key item w = (ok tt, Dict.insert key item w)

abbrev marshalled : TenantRecord → Item
marshalled r =
    ("tenant_id", text_value r.tenant_id) ∷ ("status", text_value (status_text r.status)) ∷ []

abbrev db : Dynamo Items
db = record {
  get_item = λ table key w. (ok (Dict.lookup key w), w);
  put_item =
      λ table item on w. written (permitted on (Dict.lookup (key_of item) w)) (key_of item) item w;
  update_item = λ table key l on w.
      written (permitted on (Dict.lookup key w)) key
        (with_attributes l (or_key key (Dict.lookup key w))) w;
  scan = λ table filter w. (ok [], w);
  delete_item = λ table key w. (ok tt, Dict.erase key w);
  marshal = λ r. ok (marshalled r);
  unmarshal = λ item. err (foreign "no record");
  time_text = λ t. "2025-01-01T00:00:00Z";
}

abbrev items : Items → Table
items w key = Dict.lookup key w

key_of-marshalled : (r : TenantRecord) → key_of (marshalled r) ≡ r.tenant_id
unfolding key_of Dict.lookup
key_of-marshalled r = refl

abbrev Created : TenantRecord → Items → Item → Type 0
Created r w item =
    (db.put_item "t" item if_not_exists w).0 ≡ ok tt
    → (items w r.tenant_id ≡ none)
      × Put (items w) r.tenant_id item (items (db.put_item "t" item if_not_exists w).1)

put_marshalled : (r : TenantRecord) (w : Items) → Created r w (marshalled r)
put_marshalled r w h =
    let key = key_of-marshalled r in
    let item = marshalled r in
    (
      ground (arith, ap (λ k. Dict.lookup k w) key),
      λ j. ground (arith, key, lookup-insert (key_of item) j item w, ap (λ k. Dict.lookup k w) key),
    )

db-IsTable : IsTable db "t" items
db-IsTable = record {
  put_new = λ r item w e.
      let same : marshalled r ≡ item = ground (arith, e) in
      subst (Created r w) same (put_marshalled r w);
  updated = λ key l on w h j.
      ground (arith, lookup-insert key j (with_attributes l (or_key key (Dict.lookup key w))) w);
}

abbrev client : DynamoClient Items
client = record {
  db = db;
  table_name = "t";
  clock = record { now = λ w. (0, w); pause = λ d w. (ok tt, w); is_cancelled = λ w. (false, w) };
}

no_alice : items [] alice.tenant_id ≡ none
unfolding Dict.lookup
no_alice = refl

reported : (update_activity client alice.tenant_id []).0 ≡ ok tt
unfolding update_activity
reported = refl

update_activity_makes_ghost_example :
    ((t : ℕ) × (items (update_activity client alice.tenant_id []).1 alice.tenant_id
        ≡ some (
            with_attributes
              (("last_active_at", text_value (db.time_text t)) ∷ [])
              (("tenant_id", text_value alice.tenant_id) ∷ []))))
    × ((create_tenant client alice (update_activity client alice.tenant_id []).1).0 ≢ ok tt)
update_activity_makes_ghost_example =
    update_activity_makes_ghost client items db-IsTable (record { at = λ w. refl }) alice []
      no_alice reported
