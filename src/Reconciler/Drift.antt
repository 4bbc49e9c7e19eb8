-- ===== src/Reconciler/Drift.antt =====
-- Which tenants a pass of the reconciler resets.
use agentic_tenancy.Base.{
  ℕ, String, ◌≡◌, ◌⊎◌, refl, sym, ap, subst, ◌∙◌, true, false, Option, some, List, [], ◌∷◌, ok, err,
  Error, All, All-map, All-at, arith, Result-cases, Bool-cases, inl, inr, ==-refl, string_eq,
}
use agentic_tenancy.Registry.{TenantRecord, running, idle}
use agentic_tenancy.Registry.Laws.{Directory, IsRegistry, Distinct, Unchanged, with_status}
use agentic_tenancy.Registry.Passes.{
  Handled, Outcome, Handled-map, Outcome-map, Handled-after, Handled-same, Outcome-cons, still_held,
}
use agentic_tenancy.Kube.Objects.{KubeClient, pod_name}
use agentic_tenancy.Kube.Pods.{pod_exists}
use agentic_tenancy.Kube.Laws.{KubeFrames, pod_exists-Frames}
use agentic_tenancy.Services.{Frames}
use agentic_tenancy.Reconciler.{
  Reconciler, expected_pod, cache_key, reset_tenant, reconcile_tenant, reconcile_all, reconcile,
}

-- Looked up in the world `w`, the pod that a wake creates for `t`, in the reconciler's namespace, is
-- answered with an error that says that there is none, and `o` is the record of `t` made idle
-- without pod and IP.
abbrev pub ResetAs : {W : Type 0} → Reconciler W → TenantRecord → W → Option TenantRecord → Type 0
ResetAs r t w o =
    (e : Error) × (at : ℕ) × ((r.k8s.cs.get_pod r.namespace (pod_name t.tenant_id) w).0 ≡ err e)
    × (r.k8s.cs.is_not_found e ≡ true)
    × (o ≡ some (with_status t idle "" "" at))

-- A pass over the list that starts in `w` comes to `t` without having been cancelled, and resets it
-- there.
abbrev pub ResetIn :
    {W : Type 0}
    → Reconciler W
    → List TenantRecord
    → W
    → TenantRecord
    → Option TenantRecord
    → Type 0
ResetIn r [] w t o = ⊥
ResetIn r (u ∷ l) w t o =
    ((r.clock.is_cancelled w).0 ≡ false)
    × (((u ≡ t) × ResetAs r t (r.clock.is_cancelled w).1 o)
        ⊎ ResetIn r l (reconcile_tenant r u (r.clock.is_cancelled w).1).1 t o)

pod_exists_missing :
    {W : Type 0} (c : KubeClient W) (name namespace : String) (w : W)
    → (pod_exists c name namespace w).0 ≡ ok false
    → (e : Error) × ((c.cs.get_pod namespace name w).0 ≡ err e) × (c.cs.is_not_found e ≡ true)
unfolding pod_exists
pod_exists_missing c name namespace w missing =
    elim (Result-cases (c.cs.get_pod namespace name w).0) [
      | inl (pod, f) ↦ absurd (ground (arith, missing))
      | inr (e, f) ↦ (e, f, ground (arith, missing))
    ]

module _ {W : Type 0} (r : Reconciler W) (IsGood : W → Type 0) (look : W → Directory)
    (reg : IsRegistry r.reg IsGood look) (cancels : Frames look r.clock.is_cancelled)
    (clears : (k : String) → Frames look (r.rdb.del k)) (kube : KubeFrames r.k8s.cs look) where
  reset_tenant-Handled :
      (t : TenantRecord) (w0 : W)
      → (pod_exists r.k8s (pod_name t.tenant_id) r.namespace w0).0 ≡ ok false
      → look (pod_exists r.k8s (pod_name t.tenant_id) r.namespace w0).1 t.tenant_id ≡ some t
      → Handled look
          (λ u. ResetAs r u w0)
          t
          (pod_exists r.k8s (pod_name t.tenant_id) r.namespace w0).1
          (reset_tenant r t (pod_exists r.k8s (pod_name t.tenant_id) r.namespace w0).1).1
  unfolding reset_tenant
  reset_tenant-Handled t w0 missing held =
      let id = t.tenant_id in
      let w = (pod_exists r.k8s (pod_name id) r.namespace w0).1 in
      let (set, w2) = r.reg.update_status id idle "" "" w in
      let cleared = (clears (cache_key t)).at w2 in
      let (e, gone, says) = pod_exists_missing r.k8s (pod_name id) r.namespace w0 missing in
      elim (Result-cases set) [
        | inr (x, f) ↦
            let stays = reg.status_failed id idle "" "" w x f in
            (λ j ne. ground (arith, stays j), inl (ground (arith, stays id)))
        | inl (v, f) ↦
            let (t', written) = reg.status_updated id idle "" "" w t held f in
            let at : (j : String) → look (reset_tenant r t w).1 j ≡ look w2 j =
              λ j. ground (arith, ap (λ (d : Directory). d j) cleared) in
            (
              λ j ne. ground (arith, at j, written j),
              inr (e, t', gone, says, ground (arith, at id, written id, ==-refl id)),
            )
      ]

  pub reconcile_tenant-Handled :
      (t : TenantRecord) (w : W)
      → look w t.tenant_id ≡ some t
      → Handled look (λ u. ResetAs r u w) t w (reconcile_tenant r t w).1
  unfolding reconcile_tenant
  reconcile_tenant-Handled t w held =
      let (found, w1) = pod_exists r.k8s (expected_pod t) r.namespace w in
      let Reset = λ (u : TenantRecord). ResetAs r u w in
      let at : Unchanged (look w) (look w1) = λ j.
        ap (λ f. f j) ((pod_exists-Frames r.k8s look kube (expected_pod t) r.namespace).at w) in
      let kept : (reconcile_tenant r t w).1 ≡ w1
          → Handled look Reset t w (reconcile_tenant r t w).1 =
        λ last. subst (Handled look Reset t w) (sym last) (Handled-same look Reset t w w1 at) in
      elim (Result-cases found) [
        | inr e ↦ kept (ground arith)
        | inl (true, e) ↦ kept (ground arith)
        | inl (false, e) ↦
            let last : (reconcile_tenant r t w).1 ≡ (reset_tenant r t w1).1 = ground arith in
            subst (Handled look Reset t w) (sym last) (
              Handled-after look Reset t w w1 _ at
                (reset_tenant-Handled t w e (at t.tenant_id ∙ held)))
      ]

  pub reconcile_all-Outcome :
      (l : List TenantRecord) (w : W)
      → All (λ t. look w t.tenant_id ≡ some t) l
      → Distinct l
      → (j : String) → Outcome look (ResetIn r l w) l j w (reconcile_all r l w).1
  unfolding reconcile_all
  reconcile_all-Outcome [] w held d j = inl refl
  reconcile_all-Outcome (t ∷ rest) w held d j =
      let (stop, w1) = r.clock.is_cancelled w in
      let Ends = ResetIn r (t ∷ rest) w in
      let at : Unchanged (look w) (look w1) = λ j. ap (λ f. f j) (cancels.at w) in
      let held' =
        All-map _ (λ u. look w1 u.tenant_id ≡ some u) (t ∷ rest) (λ u e. at u.tenant_id ∙ e) held in
      let w2 = (reconcile_tenant r t w1).1 in
      let here = reconcile_tenant-Handled t w1 held'.0 in
      elim (Bool-cases stop) [
        | inl e ↦ inl (ground (arith, at j))
        | inr e ↦
            let last : (reconcile_all r (t ∷ rest) w).1 ≡ (reconcile_all r rest w2).1 =
              ground arith in
            let first =
              Handled-map look (λ u. ResetAs r u w1) Ends t w1 w2 (λ o s. (e, inl (refl, s)))
                here in
            let later =
              reconcile_all-Outcome rest w2
                (still_held look (λ u. ResetAs r u w1) t rest w1 w2 here held' d) d.1 j in
            subst (Outcome look Ends (t ∷ rest) j w) (sym last) (
              Outcome-cons look Ends t rest j w w2 _ (Handled-after look Ends t w w1 w2 at first)
                (Outcome-map look (ResetIn r rest w2) Ends rest j w2 _ (λ u o s. (e, inr s)) later))
      ]

  -- A pass of the reconciler changes no record but those of tenants that it resets. A tenant that
  -- it resets was listed and running; when the pass came to it, the context had not been cancelled
  -- at any check so far, and the lookup of its pod in that world, under the name that a wake gives
  -- it, was answered with an error that says not found; its record is now idle without pod and IP,
  -- with all else but the time of activity as it was. So any other failure of the API server, or a
  -- cancelled context, resets nobody. The registry keeps its interface's promises, among
  -- them that a write that fails changes nothing, and the context, Redis and Kubernetes do not touch
  -- it.
  pub reconcile_lem :
      (w : W)
      → IsGood w
      → (j : String)
      → (look (reconcile r w).1 j ≡ look w j)
        ⊎ ((t : TenantRecord) × (l : List TenantRecord) × (look w j ≡ some t)
            × (t.status ≡ running)
            × ((r.reg.list_by_status running w).0 ≡ ok l)
            × ResetIn r l (r.reg.list_by_status running w).1 t (look (reconcile r w).1 j))
  unfolding reconcile
  reconcile_lem w good j =
      let (reply, w1) = r.reg.list_by_status running w in
      let frame = reg.list_frame running w in
      elim (Result-cases reply) [
        | inr e ↦ inl (ground (arith, frame j))
        | inl (l, e) ↦
            let lists = reg.listed running w l good e in
            let held =
              All-map _ (λ t. look w1 t.tenant_id ≡ some t) l (λ t a. frame t.tenant_id ∙ a.0)
                lists.sound in
            let last : (reconcile r w).1 ≡ (reconcile_all r l w1).1 = ground arith in
            elim (reconcile_all-Outcome l w1 held lists.distinct j) [
              | inl same ↦ inl (ap (λ v. look v j) last ∙ (same ∙ frame j))
              | inr (t, m, named, reset) ↦
                  let facts = All-at _ l t lists.sound m in
                  inr (
                    t,
                    l,
                    ap (look w) (sym named) ∙ facts.0,
                    facts.1,
                    e,
                    subst (λ v. ResetIn r l w1 t (look v j)) (sym last) reset,
                  )
            ]
      ]
