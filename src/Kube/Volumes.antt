-- ===== src/Kube/Volumes.antt =====
-- internal/k8s/client.go: `CreatePVC` and `DeletePVC`.
pub mod Idempotent
use agentic_tenancy.Base.{
  String, ◌<>◌, Bool, List, [], ◌∷◌, Error, Result, ok, err, wrap, Action, pure, ◌>>=◌,
  if◌then◌else◌, ◌≡◌, true, false, arith,
}
use agentic_tenancy.Kube.Objects.{KubeClient, PersistentVolume, Claim, pvc_name, pv_name}

abbrev pub storage_class : String
storage_class = "s3-tenant-state"

-- `if err != nil && !ignored(err) { return wrapped(err) }`, and on with `next`.
abbrev pub unless_ignored :
    {W : Type 0} {B : Type 0}
    → (Error → Bool)
    → (Error → Error)
    → Action W (Result B)
    → Result (Unit {0})
    → Action W (Result B)
unless_ignored ignored wrapped next (ok tt) = next
unless_ignored ignored wrapped next (err e) = if ignored e then next else pure (err (wrapped e))

module _ {W : Type 0} (c : KubeClient W) where
  open c.cs use {
    create_volume, create_claim, delete_volume, delete_claim, is_already_exists, is_not_found,
  }

  abbrev pub tenant_volume : String → PersistentVolume
  tenant_volume tenant_id = record {
    name = pv_name tenant_id;
    storage = "1Gi";
    access_modes = "ReadWriteMany" ∷ [];
    storage_class_name = storage_class;
    reclaim_policy = "Retain";
    driver = "s3.csi.aws.com";
    volume_handle = "tenant-" <> tenant_id;
    volume_attributes = ("bucketName", c.cfg.s3_bucket) ∷ ("subPath", "tenants/" <> tenant_id) ∷ [];
  }

  abbrev pub tenant_claim : String → String → Claim
  tenant_claim tenant_id namespace = record {
    name = pvc_name tenant_id;
    namespace = namespace;
    access_modes = "ReadWriteMany" ∷ [];
    storage_class_name = storage_class;
    volume_name = pv_name tenant_id;
    storage = "1Gi";
  }

  unfoldable pub create_pvc : String → String → Action W (Result (Unit {0}))
  create_pvc tenant_id namespace =
      create_volume (tenant_volume tenant_id)
      >>= unless_ignored is_already_exists (wrap "create PV") (
          create_claim namespace (tenant_claim tenant_id namespace)
          >>= unless_ignored is_already_exists (wrap "create PVC") (pure (ok tt)))

  unfoldable pub delete_pvc : String → String → Action W (Result (Unit {0}))
  delete_pvc tenant_id namespace =
      delete_claim namespace (pvc_name tenant_id)
      >>= unless_ignored is_not_found (λ e. e)
          (delete_volume (pv_name tenant_id)
            >>= unless_ignored is_not_found (λ e. e) (pure (ok tt)))
