-- ===== src/Registry/Laws.antt =====
-- What a registry promises to its callers. `look` is the directory of tenants that a world holds,
-- and `IsGood` an invariant of the worlds that the program builds.
use agentic_tenancy.Base.{
  ℕ, ◌+◌, ◌<◌, String, ◌≡◌, false, Option, none, some, List, [], ◌∷◌, Error, ok, err, All, All-map,
  Member, ◌==◌, string_eq, if◌then◌else◌,
}
use agentic_tenancy.Base.Int64.{Int64}
use agentic_tenancy.Registry.{TenantStatus, running, TenantRecord, RegistryClient}

abbrev pub Directory : Type 0
Directory = String → Option TenantRecord

-- The record under `id` becomes `r`, and no other changes.
abbrev pub Written : Directory → String → Option TenantRecord → Directory → Type 0
Written old id r new = (j : String) → new j ≡ (if id == j then r else old j)

abbrev pub Unchanged : Directory → Directory → Type 0
Unchanged old new = (j : String) → new j ≡ old j

-- `UPDATE status, pod_name, pod_ip, last_active_at` of the interface's `UpdateStatus`.
abbrev pub with_status : TenantRecord → TenantStatus → String → String → ℕ → TenantRecord
with_status r status pod_name pod_ip t = record r {
  status = status;
  pod_name = pod_name;
  pod_ip = pod_ip;
  last_active_at = t;
}

-- The entries are stored records, each under its own key, and no tenant is listed twice.
abbrev pub Distinct : List TenantRecord → Type 0
Distinct [] = Unit
Distinct (t ∷ l) = All (λ u. (t.tenant_id == u.tenant_id) ≡ false) l × Distinct l

pub record Lists (d : Directory) (P : TenantRecord → Type 0) (l : List TenantRecord) : Type 0 where
  pub sound : All (λ t. (d t.tenant_id ≡ some t) × P t) l
  pub complete : (j : String) (r : TenantRecord) → d j ≡ some r → P r → Member r l
  pub distinct : Distinct l

pub Lists-convert :
    {P Q : TenantRecord → Type 0} (d : Directory) (l : List TenantRecord)
    → ((r : TenantRecord) → P r → Q r)
    → ((r : TenantRecord) → Q r → P r)
    → Lists d P l
    → Lists d Q l
Lists-convert d l f g h = record {
  sound = All-map _ _ l (λ t a. (a.0, f t a.1)) h.sound;
  complete = λ j r e q. h.complete j r e (g r q);
  distinct = h.distinct;
}

pub record IsRegistry {W : Type 0} (c : RegistryClient W) (IsGood : W → Type 0)
    (look : W → Directory) : Type 0 where
  pub keyed :
      (w : W) → IsGood w → (j : String) (r : TenantRecord) → look w j ≡ some r → r.tenant_id ≡ j
  pub get_reply :
      (id : String) (w : W) (o : Option TenantRecord) → (c.get_tenant id w).0 ≡ ok o → o ≡ look w id
  pub get_frame : (id : String) (w : W) → Unchanged (look w) (look (c.get_tenant id w).1)
  pub created :
      (r : TenantRecord) (w : W)
      → (c.create_tenant r w).0 ≡ ok tt
      → (look w r.tenant_id ≡ none)
        × Written (look w) r.tenant_id (some r) (look (c.create_tenant r w).1)
  pub create_failed :
      (r : TenantRecord) (w : W) (e : Error)
      → (c.create_tenant r w).0 ≡ err e
      → Unchanged (look w) (look (c.create_tenant r w).1)
  -- An update that succeeds leaves a record with the new status under the id, even where there was
  -- none before, and no other record changes.
  pub status_set :
      (id : String) (s : TenantStatus) (pod_name pod_ip : String) (w : W)
      → (c.update_status id s pod_name pod_ip w).0 ≡ ok tt
      → (r : TenantRecord) × (r.status ≡ s)
        × (r.pod_name ≡ pod_name)
        × (r.pod_ip ≡ pod_ip)
        × Written (look w) id (some r) (look (c.update_status id s pod_name pod_ip w).1)
  pub status_updated :
      (id : String) (s : TenantStatus) (pod_name pod_ip : String) (w : W) (r : TenantRecord)
      → look w id ≡ some r
      → (c.update_status id s pod_name pod_ip w).0 ≡ ok tt
      → (t : ℕ) × Written
          (look w)
          id
          (some (with_status r s pod_name pod_ip t))
          (look (c.update_status id s pod_name pod_ip w).1)
  pub status_failed :
      (id : String) (s : TenantStatus) (pod_name pod_ip : String) (w : W) (e : Error)
      → (c.update_status id s pod_name pod_ip w).0 ≡ err e
      → Unchanged (look w) (look (c.update_status id s pod_name pod_ip w).1)
  pub activity_updated :
      (id : String) (w : W) (r : TenantRecord)
      → look w id ≡ some r
      → (c.update_activity id w).0 ≡ ok tt
      → (t : ℕ) × Written
          (look w)
          id
          (some (record r { last_active_at = t }))
          (look (c.update_activity id w).1)
  pub token_updated :
      (id token : String) (w : W)
      → (c.update_bot_token id token w).0 ≡ ok tt
      → (r : TenantRecord) × (look w id ≡ some r)
        × Written
            (look w)
            id
            (some (record r { bot_token = token }))
            (look (c.update_bot_token id token w).1)
  pub token_failed :
      (id token : String) (w : W) (e : Error)
      → (c.update_bot_token id token w).0 ≡ err e
      → Unchanged (look w) (look (c.update_bot_token id token w).1)
  pub timeout_updated :
      (id : String) (t : Int64) (w : W)
      → (c.update_idle_timeout id t w).0 ≡ ok tt
      → (r : TenantRecord) × (look w id ≡ some r)
        × Written
            (look w)
            id
            (some (record r { idle_timeout_s = t }))
            (look (c.update_idle_timeout id t w).1)
  pub timeout_failed :
      (id : String) (t : Int64) (w : W) (e : Error)
      → (c.update_idle_timeout id t w).0 ≡ err e
      → Unchanged (look w) (look (c.update_idle_timeout id t w).1)
  pub listed :
      (s : TenantStatus) (w : W) (l : List TenantRecord)
      → IsGood w
      → (c.list_by_status s w).0 ≡ ok l
      → Lists (look w) (λ r. r.status ≡ s) l
  pub list_frame : (s : TenantStatus) (w : W) → Unchanged (look w) (look (c.list_by_status s w).1)
  -- the idle tenants are running ones, last active more than `age` before some instant `now`
  pub idle_listed :
      (age : ℕ) (w : W) (l : List TenantRecord)
      → IsGood w
      → (c.list_idle_tenants age w).0 ≡ ok l
      → (now : ℕ) × Lists (look w) (λ r. (r.status ≡ running) × (r.last_active_at + age < now)) l
  pub idle_frame : (age : ℕ) (w : W) → Unchanged (look w) (look (c.list_idle_tenants age w).1)
  pub deleted :
      (id : String) (w : W)
      → (c.delete_tenant id w).0 ≡ ok tt
      → Written (look w) id none (look (c.delete_tenant id w).1)
  pub delete_failed :
      (id : String) (w : W) (e : Error)
      → (c.delete_tenant id w).0 ≡ err e
      → Unchanged (look w) (look (c.delete_tenant id w).1)
