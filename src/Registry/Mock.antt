-- ===== src/Registry/Mock.antt =====
-- internal/registry/mock.go: `MockClient`, a map behind a mutex. A call holds the mutex to its end,
-- so that what it reads from the map is what it writes back. A record is copied on the way in and
-- on the way out, so that no caller shares a record with the map.
pub mod WellKeyed
pub mod Refines
pub mod Invariant
use agentic_tenancy.Base.{
  ℕ, ◌+◌, String, ◌<>◌, Bool, true, ◌&&◌, Option, none, some, List, [], ◌∷◌, Result, ok, err, msg,
  conditional_check_failed, Action, pure, ◌==◌, string_eq, ltb, if◌then◌else◌,
}
use agentic_tenancy.Base.Dict
use agentic_tenancy.Base.Dict.{Dict}
use agentic_tenancy.Base.Int64.{Int64}
use agentic_tenancy.Registry.{TenantStatus, running, status_eq, TenantRecord, RegistryClient}
use agentic_tenancy.Services.{Clock, Slot}

-- The loops over the map that copy the records that pass a test. Go's order of iteration is not
-- fixed; here it is the order of insertion, and no theorem depends on it.
unfoldable pub select : (TenantRecord → Bool) → Dict TenantRecord → List TenantRecord
select p [] = []
select p ((_, r) ∷ d) = let rest = select p d in if p r then r ∷ rest else rest

-- `r.LastActiveAt.Before(time.Now().Add(-olderThan))`, with the sum moved to the other side.
abbrev pub is_stale : ℕ → ℕ → TenantRecord → Bool
is_stale now older_than r = r.status == running && ltb (r.last_active_at + older_than) now

module _ {W : Type 0} (clock : Clock W) (tenants : Slot W (Dict TenantRecord)) where
  open tenants use {view, put}

  unfoldable pub get_tenant : String → Action W (Result (Option TenantRecord))
  get_tenant id w = (ok (Dict.lookup id (view w)), w)

  unfoldable pub create_tenant : TenantRecord → Action W (Result (Unit {0}))
  create_tenant rec w = elim (Dict.lookup rec.tenant_id (view w)) [
    | some _ ↦ (err (conditional_check_failed rec.tenant_id), w)
    | none ↦ (ok tt, put (Dict.insert rec.tenant_id rec (view w)) w)
  ]

  -- The shape of the four updates: `missing` where the tenant is not there, else `change`.
  abbrev update :
      Result (Unit {0})
      → (TenantRecord → Action W TenantRecord)
      → String
      → Action W (Result (Unit {0}))
  update missing change id w = elim (Dict.lookup id (view w)) [
    | none ↦ (missing, w)
    | some r ↦ let (r', w') = change r w in (ok tt, put (Dict.insert id r' (view w)) w')
  ]

  unfoldable pub update_status :
      String → TenantStatus → String → String → Action W (Result (Unit {0}))
  update_status id status pod_name pod_ip =
      update (err (msg ("tenant " <> id <> " not found")))
        (λ r w.
          let (t, w') = clock.now w in
          (
            record r { status = status; pod_name = pod_name; pod_ip = pod_ip; last_active_at = t },
            w',
          ))
        id

  unfoldable pub update_activity : String → Action W (Result (Unit {0}))
  update_activity =
      update (ok tt) (λ r w. let (t, w') = clock.now w in (record r { last_active_at = t }, w'))

  unfoldable pub update_bot_token : String → String → Action W (Result (Unit {0}))
  update_bot_token id token =
      update (err (conditional_check_failed "")) (λ r. pure (record r { bot_token = token })) id

  unfoldable pub update_idle_timeout : String → Int64 → Action W (Result (Unit {0}))
  update_idle_timeout id t =
      update (err (conditional_check_failed "")) (λ r. pure (record r { idle_timeout_s = t })) id

  unfoldable pub list_all : Action W (Result (List TenantRecord))
  list_all w = (ok (select (λ _. true) (view w)), w)

  unfoldable pub list_by_status : TenantStatus → Action W (Result (List TenantRecord))
  list_by_status status w = (ok (select (λ r. r.status == status) (view w)), w)

  unfoldable pub list_idle_tenants : ℕ → Action W (Result (List TenantRecord))
  list_idle_tenants older_than w =
      let (t, w') = clock.now w in (ok (select (is_stale t older_than) (view w)), w')

  unfoldable pub delete_tenant : String → Action W (Result (Unit {0}))
  delete_tenant id w = (ok tt, put (Dict.erase id (view w)) w)

  abbrev pub mock_client : RegistryClient W
  mock_client = record {
    get_tenant = get_tenant;
    create_tenant = create_tenant;
    update_status = update_status;
    update_activity = update_activity;
    update_bot_token = update_bot_token;
    update_idle_timeout = update_idle_timeout;
    list_all = list_all;
    list_by_status = list_by_status;
    list_idle_tenants = list_idle_tenants;
    delete_tenant = delete_tenant;
  }
