-- ===== src/Reconciler/Progress.antt =====
-- That the reconciler gets to a running tenant whose pod is gone.
use agentic_tenancy.Base.{
  ℕ, ◌≡◌, sym, ap, subst, ◌∙◌, false, some, List, [], ◌∷◌, ok, All, All-map, All-at, Member, arith,
  inl, inr, ==-refl, eq_iff, string_eq, String,
}
use agentic_tenancy.Registry.{TenantRecord, running, idle}
use agentic_tenancy.Registry.Laws.{Directory, IsRegistry, Distinct, with_status, Unchanged}
use agentic_tenancy.Registry.Passes.{still_held}
use agentic_tenancy.Kube.Objects.{pod_name}
use agentic_tenancy.Kube.Pods.{pod_exists}
use agentic_tenancy.Kube.Laws.{KubeFrames, pod_exists-Frames}
use agentic_tenancy.Services.{Frames}
use agentic_tenancy.Reconciler.{
  Reconciler, cache_key, reset_tenant, reconcile_tenant, reconcile_all, reconcile,
}
use agentic_tenancy.Reconciler.Drift.{ResetAs, reconcile_tenant-Handled, reconcile_all-Outcome}

module _ {W : Type 0} (r : Reconciler W) (IsGood : W → Type 0) (look : W → Directory)
    (reg : IsRegistry r.reg IsGood look) (cancels : Frames look r.clock.is_cancelled)
    (clears : (k : String) → Frames look (r.rdb.del k)) (kube : KubeFrames r.k8s.cs look)
    (t : TenantRecord) (goes_on : (w : W) → (r.clock.is_cancelled w).0 ≡ false)
    (missing : (w : W) → (pod_exists r.k8s (pod_name t.tenant_id) r.namespace w).0 ≡ ok false)
    (updates : (w : W)
      → look w t.tenant_id ≡ some t
      → (r.reg.update_status t.tenant_id idle "" "" w).0 ≡ ok tt) where
  abbrev IsReset : W → Type 0
  IsReset w = (at : ℕ) × (look w t.tenant_id ≡ some (with_status t idle "" "" at))

  reconcile_tenant-IsReset :
      (w : W) → look w t.tenant_id ≡ some t → IsReset (reconcile_tenant r t w).1
  unfolding reconcile_tenant reset_tenant
  reconcile_tenant-IsReset w held =
      let id = t.tenant_id in
      let w1 = (pod_exists r.k8s (pod_name id) r.namespace w).1 in
      let same = (pod_exists-Frames r.k8s look kube (pod_name id) r.namespace).at w in
      let held' = ap (λ f. f id) same ∙ held in
      let set = r.reg.update_status id idle "" "" w1 in
      let (at, written) = reg.status_updated id idle "" "" w1 t held' (updates w1 held') in
      let last : (reconcile_tenant r t w).1 ≡ (r.rdb.del (cache_key t) set.1).1 =
        ground (arith, missing w, updates w1 held') in
      let cleared = (clears (cache_key t)).at set.1 in
      (
        at,
        ap (λ v. look v id) last
            ∙ (ap (λ f. f id) cleared ∙ ground (arith, written id, ==-refl id)),
      )

  reconcile_all-IsReset :
      (l : List TenantRecord) (w : W)
      → All (λ u. look w u.tenant_id ≡ some u) l
      → Distinct l
      → Member t l
      → IsReset (reconcile_all r l w).1
  unfolding reconcile_all
  reconcile_all-IsReset [] w held d m = absurd m
  reconcile_all-IsReset (u ∷ rest) w0 held0 d m =
      let w = (r.clock.is_cancelled w0).1 in
      let at : Unchanged (look w0) (look w) = λ j. ap (λ f. f j) (cancels.at w0) in
      let held =
        All-map _ (λ v. look w v.tenant_id ≡ some v) (u ∷ rest) (λ v e. at v.tenant_id ∙ e) held0 in
      let w1 = (reconcile_tenant r u w).1 in
      let first = reconcile_tenant-Handled r IsGood look reg cancels clears kube u w held.0 in
      let held' = still_held look (λ v. ResetAs r v w) u rest w w1 first held d in
      let last : (reconcile_all r (u ∷ rest) w0).1 ≡ (reconcile_all r rest w1).1 =
        ground (arith, goes_on w0) in
      subst IsReset (sym last) (elim m [
        | inr later ↦ reconcile_all-IsReset rest w1 held' d.1 later
        | inl e ↦
            let here : IsReset w1 =
              subst (λ v. IsReset (reconcile_tenant r v w).1) (sym e)
                (reconcile_tenant-IsReset w (subst (λ v. look w v.tenant_id ≡ some v) e held.0)) in
            elim (reconcile_all-Outcome r IsGood look reg cancels clears kube rest w1 held' d.1
              t.tenant_id) [
                | inl same ↦ (here.0, same ∙ here.1)
                | inr (v, k, named, _) ↦
                    let other = All-at _ rest v d.0 k in
                    absurd (
                      ground (
                        arith,
                        eq_iff u.tenant_id v.tenant_id,
                        ap (λ (x : TenantRecord). x.tenant_id) e,
                      ))
              ]
      ])

  -- A pass of the reconciler resets a listed tenant to idle, without pod and IP and otherwise, but
  -- for the time of activity, as it was, if every lookup of its pod says that there is none, the
  -- update of its record succeeds and the context is not cancelled: whatever fails for the other
  -- tenants of the list does not stop the pass. The registry keeps its interface's promises, and
  -- the context, Redis and Kubernetes do not touch it.
  pub reconcile_resets :
      (w : W) (l : List TenantRecord)
      → IsGood w
      → (r.reg.list_by_status running w).0 ≡ ok l
      → Member t l
      → (at : ℕ) × (look (reconcile r w).1 t.tenant_id ≡ some (with_status t idle "" "" at))
  unfolding reconcile
  reconcile_resets w l good e m =
      let w1 = (r.reg.list_by_status running w).1 in
      let frame = reg.list_frame running w in
      let lists = reg.listed running w l good e in
      let held =
        All-map _ (λ u. look w1 u.tenant_id ≡ some u) l (λ u a. frame u.tenant_id ∙ a.0)
          lists.sound in
      let last : (reconcile r w).1 ≡ (reconcile_all r l w1).1 = ground arith in
      subst IsReset (sym last) (reconcile_all-IsReset l w1 held lists.distinct m)
