-- ===== src/Lifecycle/Progress.antt =====
-- That the idle check gets to a listed tenant.
use agentic_tenancy.Base.{
  ℕ, ◌≡◌, sym, ap, subst, ◌∙◌, true, some, List, [], ◌∷◌, ok, All, All-map, All-at, Member, arith,
  inl, inr, ==-refl, eq_iff, string_eq,
}
use agentic_tenancy.Registry.{TenantRecord, idle}
use agentic_tenancy.Registry.Laws.{Directory, IsRegistry, Distinct, with_status}
use agentic_tenancy.Registry.Passes.{still_held}
use agentic_tenancy.Kube.Pods.{delete_pod}
use agentic_tenancy.Kube.Laws.{KubeFrames, delete_pod-Frames}
use agentic_tenancy.Services.{Frames}
use agentic_tenancy.Lifecycle.{
  Controller, default_idle, is_expired, stop_tenant, check_tenant, check_all, check_idle_tenants,
}
use agentic_tenancy.Lifecycle.Idle.{StoppedAs, check_tenant-Handled, check_all-Outcome}

module _ {W : Type 0} (c : Controller W) (IsGood : W → Type 0) (look : W → Directory)
    (reg : IsRegistry c.reg IsGood look) (tells : Frames look c.clock.now)
    (kube : KubeFrames c.k8s.cs look) (t : TenantRecord)
    (late : (w : W) → is_expired (c.clock.now w).0 t ≡ true)
    (deletes : (w : W) → (delete_pod c.k8s t.pod_name t.namespace 30 w).0 ≡ ok tt)
    (updates : (w : W)
      → look w t.tenant_id ≡ some t
      → (c.reg.update_status t.tenant_id idle "" "" w).0 ≡ ok tt) where
  abbrev IsStopped : W → Type 0
  IsStopped w = (at : ℕ) × (look w t.tenant_id ≡ some (with_status t idle "" "" at))

  check_tenant-IsStopped : (w : W) → look w t.tenant_id ≡ some t → IsStopped (check_tenant c t w).1
  unfolding check_tenant stop_tenant
  check_tenant-IsStopped w held =
      let id = t.tenant_id in
      let w1 = (c.clock.now w).1 in
      let w2 = (delete_pod c.k8s t.pod_name t.namespace 30 w1).1 in
      let same : look w2 ≡ look w =
        (delete_pod-Frames c.k8s look kube t.pod_name t.namespace 30).at w1 ∙ tells.at w in
      let held' = ap (λ f. f id) same ∙ held in
      let (at, written) = reg.status_updated id idle "" "" w2 t held' (updates w2 held') in
      let last : (check_tenant c t w).1 ≡ (c.reg.update_status id idle "" "" w2).1 =
        ground (arith, late w, deletes w1) in
      (at, ap (λ v. look v id) last ∙ ground (arith, written id, ==-refl id))

  check_all-IsStopped :
      (l : List TenantRecord) (w : W)
      → All (λ u. look w u.tenant_id ≡ some u) l
      → Distinct l
      → Member t l
      → IsStopped (check_all c l w).1
  unfolding check_all
  check_all-IsStopped [] w held d m = absurd m
  check_all-IsStopped (u ∷ rest) w held d m =
      let w1 = (check_tenant c u w).1 in
      let first = check_tenant-Handled c IsGood look reg tells kube u w held.0 in
      let held' = still_held look (λ v. StoppedAs c v w) u rest w w1 first held d in
      elim m [
        | inr later ↦ check_all-IsStopped rest w1 held' d.1 later
        | inl e ↦
            let here : IsStopped w1 =
              subst (λ v. IsStopped (check_tenant c v w).1) (sym e)
                (check_tenant-IsStopped w (subst (λ v. look w v.tenant_id ≡ some v) e held.0)) in
            elim (check_all-Outcome c IsGood look reg tells kube rest w1 held' d.1 t.tenant_id) [
              | inl same ↦ (here.0, same ∙ here.1)
              | inr (v, k, named, _) ↦
                  let other = All-at _ rest v d.0 k in
                  absurd (
                    ground (
                      arith,
                      eq_iff u.tenant_id v.tenant_id,
                      ap (λ (r : TenantRecord). r.tenant_id) e,
                    ))
            ]
      ]

  -- A pass of the idle check makes a listed tenant idle, without pod and IP and otherwise, but for
  -- the time of activity, as it was, if the tenant has expired at every reading of the clock, the
  -- deletion of its pod succeeds, and so does the update of its record: whatever fails for the
  -- other tenants of the list does not stop the pass. The registry keeps its interface's promises,
  -- and the calls of the clock and of Kubernetes do not touch it.
  pub check_idle_tenants_stops :
      (w : W) (l : List TenantRecord)
      → IsGood w
      → (c.reg.list_idle_tenants default_idle w).0 ≡ ok l
      → Member t l
      → (at : ℕ) × (look (check_idle_tenants c w).1 t.tenant_id
          ≡ some (with_status t idle "" "" at))
  unfolding check_idle_tenants
  check_idle_tenants_stops w l good e m =
      let w1 = (c.reg.list_idle_tenants default_idle w).1 in
      let frame = reg.idle_frame default_idle w in
      let (now, lists) = reg.idle_listed default_idle w l good e in
      let held =
        All-map _ (λ u. look w1 u.tenant_id ≡ some u) l (λ u a. frame u.tenant_id ∙ a.0)
          lists.sound in
      let last : (check_idle_tenants c w).1 ≡ (check_all c l w1).1 = ground arith in
      subst IsStopped (sym last) (check_all-IsStopped l w1 held lists.distinct m)
