-- ===== src/Lifecycle/Idle.antt =====
-- Which tenants a pass of the idle check stops.
use agentic_tenancy.Base.{
  ℕ, ◌+◌, ◌*◌, ◌<◌, String, ◌≡◌, ◌⊎◌, refl, sym, ap, subst, ◌∙◌, true, Option, some, List, [], ◌∷◌,
  ok, All, All-map, All-at, arith, Result-cases, Bool-cases, inl, inr, ==-refl, string_eq,
}
use agentic_tenancy.Registry.{TenantRecord, running, idle}
use agentic_tenancy.Registry.Laws.{Directory, IsRegistry, Distinct, Unchanged, with_status}
use agentic_tenancy.Registry.Passes.{
  Handled, Outcome, Handled-map, Outcome-map, Handled-after, Handled-same, Outcome-cons, still_held,
}
use agentic_tenancy.Kube.Pods.{second, delete_pod}
use agentic_tenancy.Kube.Laws.{KubeFrames, delete_pod-Frames}
use agentic_tenancy.Services.{Frames}
use agentic_tenancy.Lifecycle.Timeout.{IsLate, is_expired-IsLate}
use agentic_tenancy.Lifecycle.{
  Controller, default_idle, is_expired, stop_tenant, check_tenant, check_all, check_idle_tenants,
}

-- Looked at in the world `w`, `t` is late by the clock's reading, the deletion of its pod then
-- succeeds, and `o` is its record made idle without pod and IP.
abbrev pub StoppedAs : {W : Type 0} → Controller W → TenantRecord → W → Option TenantRecord → Type 0
StoppedAs c t w o =
    IsLate (c.clock.now w).0 t
    × ((delete_pod c.k8s t.pod_name t.namespace 30 (c.clock.now w).1).0 ≡ ok tt)
    × (at : ℕ) × (o ≡ some (with_status t idle "" "" at))

-- A pass over the list that starts in `w` comes to `t`, and stops it in that world.
abbrev pub StoppedIn :
    {W : Type 0}
    → Controller W
    → List TenantRecord
    → W
    → TenantRecord
    → Option TenantRecord
    → Type 0
StoppedIn c [] w t o = ⊥
StoppedIn c (u ∷ l) w t o = ((u ≡ t) × StoppedAs c t w o) ⊎ StoppedIn c l (check_tenant c u w).1 t o

module _ {W : Type 0} (c : Controller W) (IsGood : W → Type 0) (look : W → Directory)
    (reg : IsRegistry c.reg IsGood look) (tells : Frames look c.clock.now)
    (kube : KubeFrames c.k8s.cs look) where
  stop_tenant-Handled :
      (t : TenantRecord) (w : W)
      → look w t.tenant_id ≡ some t
      → is_expired (c.clock.now w).0 t ≡ true
      → look (c.clock.now w).1 ≡ look w
      → Handled look
          (λ u. StoppedAs c u w)
          t
          (c.clock.now w).1
          (stop_tenant c t (c.clock.now w).1).1
  unfolding stop_tenant
  stop_tenant-Handled t w0 held0 old tick =
      let w = (c.clock.now w0).1 in
      let id = t.tenant_id in
      let held : look w id ≡ some t = ap (λ f. f id) tick ∙ held0 in
      let (gone, w1) = delete_pod c.k8s t.pod_name t.namespace 30 w in
      let same : look w1 ≡ look w =
        (delete_pod-Frames c.k8s look kube t.pod_name t.namespace 30).at w in
      let at : Unchanged (look w) (look w1) = λ j. ap (λ f. f j) same in
      elim (Result-cases gone) [
        | inr e ↦ (λ j ne. ground (arith, at j), inl (ground (arith, at id)))
        | inl (u, e) ↦ elim (Result-cases (c.reg.update_status id idle "" "" w1).0) [
          | inr (x, f) ↦
              let stays = reg.status_failed id idle "" "" w1 x f in
              (λ j ne. ground (arith, at j, stays j), inl (ground (arith, at id, stays id)))
          | inl (v, f) ↦
              let (t', written) = reg.status_updated id idle "" "" w1 t (at id ∙ held) f in
              (
                λ j ne. ground (arith, at j, written j),
                inr (is_expired-IsLate _ t old, e, t', ground (arith, written id, ==-refl id)),
              )
        ]
      ]

  pub check_tenant-Handled :
      (t : TenantRecord) (w : W)
      → look w t.tenant_id ≡ some t
      → Handled look (λ u. StoppedAs c u w) t w (check_tenant c t w).1
  unfolding check_tenant
  check_tenant-Handled t w held =
      let (now, w1) = c.clock.now w in
      let Stopped = λ (u : TenantRecord). StoppedAs c u w in
      let at : Unchanged (look w) (look w1) = λ j. ap (λ f. f j) (tells.at w) in
      elim (Bool-cases (is_expired now t)) [
        | inr fresh ↦
            let last : (check_tenant c t w).1 ≡ w1 = ground arith in
            subst (Handled look Stopped t w) (sym last) (Handled-same look Stopped t w w1 at)
        | inl old ↦
            let last : (check_tenant c t w).1 ≡ (stop_tenant c t w1).1 = ground arith in
            subst (Handled look Stopped t w) (sym last) (
              Handled-after look Stopped t w w1 _ at
                (stop_tenant-Handled t w held old (tells.at w)))
      ]

  pub check_all-Outcome :
      (l : List TenantRecord) (w : W)
      → All (λ t. look w t.tenant_id ≡ some t) l
      → Distinct l
      → (j : String) → Outcome look (StoppedIn c l w) l j w (check_all c l w).1
  unfolding check_all
  check_all-Outcome [] w held d j = inl refl
  check_all-Outcome (t ∷ rest) w held d j =
      let w1 = (check_tenant c t w).1 in
      let here = check_tenant-Handled t w held.0 in
      let first =
        Handled-map look (λ u. StoppedAs c u w) (StoppedIn c (t ∷ rest) w) t w w1
          (λ o s. inl (refl, s)) here in
      let later =
        check_all-Outcome rest w1 (still_held look (λ u. StoppedAs c u w) t rest w w1 here held d)
          d.1 j in
      Outcome-cons look (StoppedIn c (t ∷ rest) w) t rest j w w1 _ first (
        Outcome-map look (StoppedIn c rest w1) (StoppedIn c (t ∷ rest) w) rest j w1 _
          (λ u o s. inr s) later)

  -- A pass of the idle check changes no record but those of tenants that it stops. A tenant that it
  -- stops was listed and running, and last active more than five minutes before the clock's reading
  -- at the start of the listing; when the pass came to it, as many seconds as it asks for, 300 where
  -- it asks for 0, had passed since its last activity by the clock's reading there, unless it asks
  -- for more than 9223372036, and the deletion of its pod that followed succeeded; its record is now
  -- idle without pod and IP, with all else but the time of activity as it was. The registry keeps
  -- its interface's promises, among them that a write that fails changes nothing, and lists by the
  -- clock; the calls of the clock and of Kubernetes do not touch it.
  pub check_idle_tenants_lem :
      ((age : ℕ) (w : W) (l : List TenantRecord)
        → (c.reg.list_idle_tenants age w).0 ≡ ok l
        → All (λ t. t.last_active_at + age < (c.clock.now w).0) l)
      → (w : W) → IsGood w
      → (j : String)
      → (look (check_idle_tenants c w).1 j ≡ look w j)
        ⊎ ((t : TenantRecord) × (l : List TenantRecord) × (look w j ≡ some t)
            × (t.status ≡ running)
            × (t.last_active_at + 300 * second < (c.clock.now w).0)
            × ((c.reg.list_idle_tenants default_idle w).0 ≡ ok l)
            × StoppedIn c l
                (c.reg.list_idle_tenants default_idle w).1
                t
                (look (check_idle_tenants c w).1 j))
  unfolding check_idle_tenants
  check_idle_tenants_lem by_clock w good j =
      let (reply, w1) = c.reg.list_idle_tenants default_idle w in
      let frame = reg.idle_frame default_idle w in
      elim (Result-cases reply) [
        | inr e ↦ inl (ground (arith, frame j))
        | inl (l, e) ↦
            let (now, lists) = reg.idle_listed default_idle w l good e in
            let held =
              All-map _ (λ t. look w1 t.tenant_id ≡ some t) l (λ t a. frame t.tenant_id ∙ a.0)
                lists.sound in
            let last : (check_idle_tenants c w).1 ≡ (check_all c l w1).1 = ground arith in
            elim (check_all-Outcome l w1 held lists.distinct j) [
              | inl same ↦ inl (ap (λ v. look v j) last ∙ (same ∙ frame j))
              | inr (t, m, named, stopped) ↦
                  let facts = All-at _ l t lists.sound m in
                  inr (
                    t,
                    l,
                    ap (look w) (sym named) ∙ facts.0,
                    facts.1.0,
                    All-at _ l t (by_clock default_idle w l e) m,
                    e,
                    subst (λ v. StoppedIn c l w1 t (look v j)) (sym last) stopped,
                  )
            ]
      ]
