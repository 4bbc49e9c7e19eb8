-- ===== src/Registry/Dynamo/Items.antt =====
-- The items of the table, under the calls of `DynamoClient`.
use agentic_tenancy.Base.{
  ℕ, String, ◌≡◌, ◌≢◌, inl, inr, ap, subst, ==-refl, ◌∙◌, Option, none, some, List, [], ◌∷◌, ok,
  arith, ◌==◌, string_eq, if◌then◌else◌, Result-cases,
}
use agentic_tenancy.Base.Dict
use agentic_tenancy.Base.Dict.{Dict}
use agentic_tenancy.Registry.{TenantRecord}
use agentic_tenancy.Registry.Dynamo.{
  Attribute, text_value, Item, Condition, unconditional, if_not_exists, Dynamo, DynamoClient,
  create_tenant, update_activity,
}
use agentic_tenancy.Services.{Frames}

-- `SET`: each attribute in turn.
pub with_attributes : List (String × Attribute) → Item → Item
with_attributes [] item = item
with_attributes ((name, value) ∷ rest) item = with_attributes rest (Dict.insert name value item)

-- `UpdateItem` on a key without an item starts from the key alone.
abbrev pub or_key : String → Option Item → Item
or_key key none = ("tenant_id", text_value key) ∷ []
or_key key (some item) = item

abbrev pub Table : Type 0
Table = String → Option Item

abbrev pub Put : Table → String → Item → Table → Type 0
Put old key item new = (j : String) → new j ≡ (if key == j then some item else old j)

-- The documented behaviour of a `PutItem` and an `UpdateItem` that succeed, and the key that a
-- marshalled record has.
pub record IsTable {W : Type 0} (db : Dynamo W) (name : String) (items : W → Table) : Type 0 where
  pub put_new :
      (r : TenantRecord) (item : Item) (w : W)
      → db.marshal r ≡ ok item
      → (db.put_item name item if_not_exists w).0 ≡ ok tt
      → (items w r.tenant_id ≡ none)
        × Put (items w) r.tenant_id item (items (db.put_item name item if_not_exists w).1)
  pub updated :
      (key : String) (l : List (String × Attribute)) (on : Condition) (w : W)
      → (db.update_item name key l on w).0 ≡ ok tt
      → Put
          (items w)
          key
          (with_attributes l (or_key key (items w key)))
          (items (db.update_item name key l on w).1)

module _ {W : Type 0} (c : DynamoClient W) (items : W → Table)
    (table : IsTable c.db c.table_name items) (tells : Frames items c.clock.now) where
  create_tenant-free :
      (r : TenantRecord) (w : W) → (create_tenant c r w).0 ≡ ok tt → items w r.tenant_id ≡ none
  unfolding create_tenant
  create_tenant-free r w made = elim (Result-cases (c.db.marshal r)) [
    | inr (x, e) ↦ absurd (ground (arith, made, e))
    | inl (item, e) ↦ elim (Result-cases (c.db.put_item c.table_name item if_not_exists w).0) [
      | inl (u, p) ↦ (table.put_new r item w e p).0
      | inr (x, p) ↦ absurd (ground (arith, made, e, p))
    ]
  ]

  -- A report of activity for a tenant that has no item, when it succeeds, makes one of the key and
  -- the time alone, and the creation of that tenant then fails. The database behaves as documented,
  -- and reading the clock leaves the table alone.
  pub update_activity_makes_ghost :
      (r : TenantRecord) (w : W)
      → items w r.tenant_id ≡ none
      → (update_activity c r.tenant_id w).0 ≡ ok tt
      → ((t : ℕ) × (items (update_activity c r.tenant_id w).1 r.tenant_id
            ≡ some (
                with_attributes
                  (("last_active_at", text_value (c.db.time_text t)) ∷ [])
                  (("tenant_id", text_value r.tenant_id) ∷ []))))
        × ((create_tenant c r (update_activity c r.tenant_id w).1).0 ≢ ok tt)
  unfolding update_activity
  update_activity_makes_ghost r w free e =
      let id = r.tenant_id in
      let (t, w1) = c.clock.now w in
      let changes : List (String × Attribute) =
        ("last_active_at", text_value (c.db.time_text t)) ∷ [] in
      let free1 : items w1 id ≡ none = ap (λ f. f id) (tells.at w) ∙ free in
      let put = table.updated id changes unconditional w1 e in
      let ghost = with_attributes changes (or_key id none) in
      let there : items (update_activity c id w).1 id ≡ some ghost =
        subst
          (λ o. items (update_activity c id w).1 id ≡ some (with_attributes changes (or_key id o)))
          free1 (ground (arith, put id, ==-refl id)) in
      (
        (t, there),
        λ made.
            let none_there = create_tenant-free r (update_activity c id w).1 made in
            absurd (ground (arith, there, none_there)),
      )
