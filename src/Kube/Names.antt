-- ===== src/Kube/Names.antt =====
-- The names of a tenant's objects keep tenants apart.
use agentic_tenancy.Base.{String, ◌≡◌, append_cancel_left}
use agentic_tenancy.Kube.Objects.{pod_name, pvc_name, pv_name}

-- Two tenants with one pod name, one claim name or one volume name are the same tenant.
pub names_separate :
    (a b : String)
    → ((pod_name a ≡ pod_name b) → a ≡ b)
      × ((pvc_name a ≡ pvc_name b) → a ≡ b)
      × ((pv_name a ≡ pv_name b) → a ≡ b)
names_separate a b = (
  append_cancel_left "zeroclaw-" a b,
  append_cancel_left "pvc-tenant-" a b,
  append_cancel_left "pv-tenant-" a b,
)
