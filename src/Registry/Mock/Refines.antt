-- ===== src/Registry/Mock/Refines.antt =====
-- `MockClient` keeps what the interface promises.
use agentic_tenancy.Base.{
  String, ◌≡◌, refl, some, ok, Option-cases, subst, ◌==◌, string_eq, arith, inl, inr,
}
use agentic_tenancy.Base.Dict
use agentic_tenancy.Base.Dict.{Dict, lookup-insert, lookup-erase}
use agentic_tenancy.Base.Int64.{Int64}
use agentic_tenancy.Registry.{TenantStatus, running, status_eq, TenantRecord, same_status_iff}
use agentic_tenancy.Registry.Laws.{
  Directory, Lists, Lists-convert, IsRegistry, Written, with_status,
}
use agentic_tenancy.Registry.Mock.{
  is_stale, mock_client, get_tenant, create_tenant, update_status, update_activity,
  update_bot_token, update_idle_timeout, list_by_status, list_idle_tenants, delete_tenant,
}
use agentic_tenancy.Registry.Mock.WellKeyed.{WellKeyed, WellKeyed-keyed, select-Lists}
use agentic_tenancy.Services.{Clock, Slot, Frames}

module _ {W : Type 0} (clock : Clock W) (tenants : Slot W (Dict TenantRecord))
    (steady : Frames tenants.view clock.now) where
  open tenants use {view, view-put}

  abbrev pub look : W → Directory
  look w j = Dict.lookup j (view w)

  abbrev pub IsGood : W → Type 0
  IsGood w = WellKeyed (view w)

  status-Written :
      (id : String) (s : TenantStatus) (n ip : String) (w : W)
      → (update_status clock tenants id s n ip w).0 ≡ ok tt
      → (r : TenantRecord) × (r.status ≡ s)
        × (r.pod_name ≡ n)
        × (r.pod_ip ≡ ip)
        × Written (look w) id (some r) (look (update_status clock tenants id s n ip w).1)
  unfolding update_status
  status-Written id s n ip w h = elim (Option-cases (Dict.lookup id (view w))) [
    | inl e ↦ absurd (ground arith)
    | inr (r, e) ↦
        let r' = with_status r s n ip (clock.now w).0 in
        (
          r',
          refl,
          refl,
          refl,
          λ j. ground (
            arith,
            tenants.view-put (Dict.insert id r' (view w)) (clock.now w).1,
            lookup-insert id j r' (view w),
          ),
        )
  ]

  token-Written :
      (id token : String) (w : W)
      → (update_bot_token clock tenants id token w).0 ≡ ok tt
      → (r : TenantRecord) × (look w id ≡ some r)
        × Written
            (look w)
            id
            (some (record r { bot_token = token }))
            (look (update_bot_token clock tenants id token w).1)
  unfolding update_bot_token
  token-Written id token w h = elim (Option-cases (Dict.lookup id (view w))) [
    | inl e ↦ ground arith
    | inr (r, e) ↦ (
      r,
      e,
      λ j. ground (
        arith,
        tenants.view-put (Dict.insert id (record r { bot_token = token }) (view w)) w,
        lookup-insert id j (record r { bot_token = token }) (view w),
      ),
    )
  ]

  timeout-Written :
      (id : String) (t : Int64) (w : W)
      → (update_idle_timeout clock tenants id t w).0 ≡ ok tt
      → (r : TenantRecord) × (look w id ≡ some r)
        × Written
            (look w)
            id
            (some (record r { idle_timeout_s = t }))
            (look (update_idle_timeout clock tenants id t w).1)
  unfolding update_idle_timeout
  timeout-Written id t w h = elim (Option-cases (Dict.lookup id (view w))) [
    | inl e ↦ ground arith
    | inr (r, e) ↦ (
      r,
      e,
      λ j. ground (
        arith,
        tenants.view-put (Dict.insert id (record r { idle_timeout_s = t }) (view w)) w,
        lookup-insert id j (record r { idle_timeout_s = t }) (view w),
      ),
    )
  ]

  -- `MockClient` keeps every promise of the interface, where reading the clock leaves the map alone.
  pub mock_client-IsRegistry : IsRegistry (mock_client clock tenants) IsGood look
  unfolding get_tenant create_tenant update_status update_activity update_bot_token
      update_idle_timeout list_by_status list_idle_tenants delete_tenant
  mock_client-IsRegistry = record {
    keyed = λ w h. WellKeyed-keyed (view w) h;
    get_reply = λ id w o e. ground arith;
    get_frame = λ id w j. refl;
    created = λ r w h. (
      ground arith,
      λ j. ground (
        arith,
        tenants.view-put (Dict.insert r.tenant_id r (view w)) w,
        lookup-insert r.tenant_id j r (view w),
      ),
    );
    create_failed = λ r w e h j. ground arith;
    status_set = λ id s n ip w h. status-Written id s n ip w h;
    status_updated = λ id s n ip w r e h. (
      (clock.now w).0,
      λ j. ground (
        arith,
        tenants.view-put (Dict.insert id (with_status r s n ip (clock.now w).0) (view w))
            (clock.now w).1,
        lookup-insert id j (with_status r s n ip (clock.now w).0) (view w),
      ),
    );
    status_failed = λ id s n ip w e h j. ground arith;
    activity_updated = λ id w r e h. (
      (clock.now w).0,
      λ j. ground (
        arith,
        tenants.view-put (Dict.insert id (record r { last_active_at = (clock.now w).0 }) (view w))
            (clock.now w).1,
        lookup-insert id j (record r { last_active_at = (clock.now w).0 }) (view w),
      ),
    );
    token_updated = λ id token w h. token-Written id token w h;
    token_failed = λ id token w e h j. ground arith;
    timeout_updated = λ id t w h. timeout-Written id t w h;
    timeout_failed = λ id t w e h j. ground arith;
    listed = λ s w l g h. subst (Lists (look w) (λ r. r.status ≡ s)) (cc) (
        Lists-convert (look w) _ (λ r. (same_status_iff r.status s).0)
          (λ r. (same_status_iff r.status s).1) (select-Lists (λ r. r.status == s) (view w) g));
    list_frame = λ s w j. refl;
    idle_listed = λ age w l g h. (
      (clock.now w).0,
      subst (Lists (look w) _) (cc) (
          Lists-convert (look w) _ (λ r q. ground (arith, same_status_iff r.status running))
            (λ r q. ground (arith, same_status_iff r.status running))
            (select-Lists (is_stale (clock.now w).0 age) (view w) g)),
    );
    idle_frame = λ age w j. rw (steady.at w) refl;
    deleted = λ id w h j.
        ground (arith, tenants.view-put (Dict.erase id (view w)) w, lookup-erase id j (view w));
    delete_failed = λ id w e h. cc;
  }
