-- ===== src/Registry/Mock/Invariant.antt =====
-- The map of `MockClient`, after any calls.
use agentic_tenancy.Base.{
  ℕ, String, Result, Action, ◌≡◌, refl, sym, subst, some, List, [], ◌∷◌, Option-cases, inl, inr,
  arith,
}
use agentic_tenancy.Base.Dict
use agentic_tenancy.Base.Dict.{Dict}
use agentic_tenancy.Base.Int64.{Int64}
use agentic_tenancy.Registry.{TenantStatus, TenantRecord, RegistryClient}
use agentic_tenancy.Registry.Laws.{with_status}
use agentic_tenancy.Registry.Mock.{
  mock_client, update, get_tenant, create_tenant, update_status, update_activity, update_bot_token,
  update_idle_timeout, list_all, list_by_status, list_idle_tenants, delete_tenant,
}
use agentic_tenancy.Registry.Mock.WellKeyed.{
  WellKeyed, WellKeyed-keyed, insert-WellKeyed, erase-WellKeyed,
}
use agentic_tenancy.Services.{Clock, Slot, Frames}

pub data RegistryCall : Type 0 where
  get delete touch : String → RegistryCall
  create : TenantRecord → RegistryCall
  set_status : String → TenantStatus → String → String → RegistryCall
  set_token : String → String → RegistryCall
  set_timeout : String → Int64 → RegistryCall
  all_tenants : RegistryCall
  with_given_status : TenantStatus → RegistryCall
  idle_for : ℕ → RegistryCall

-- The world after a call.
pub perform : {W : Type 0} → RegistryClient W → RegistryCall → W → W
perform c (get id) w = (c.get_tenant id w).1
perform c (delete id) w = (c.delete_tenant id w).1
perform c (touch id) w = (c.update_activity id w).1
perform c (create r) w = (c.create_tenant r w).1
perform c (set_status id s n ip) w = (c.update_status id s n ip w).1
perform c (set_token id token) w = (c.update_bot_token id token w).1
perform c (set_timeout id t) w = (c.update_idle_timeout id t w).1
perform c all_tenants w = (c.list_all w).1
perform c (with_given_status s) w = (c.list_by_status s w).1
perform c (idle_for age) w = (c.list_idle_tenants age w).1

pub perform_all : {W : Type 0} → RegistryClient W → List RegistryCall → W → W
perform_all c [] w = w
perform_all c (call ∷ rest) w = perform_all c rest (perform c call w)

put_back-WellKeyed :
    (id : String) (r r' : TenantRecord) (d : Dict TenantRecord)
    → WellKeyed d
    → Dict.lookup id d ≡ some r
    → r'.tenant_id ≡ r.tenant_id
    → WellKeyed (Dict.insert id r' d)
put_back-WellKeyed id r r' d h held own =
    subst (λ k. WellKeyed (Dict.insert k r' d)) (ground (arith, own, WellKeyed-keyed d h id r held))
      (insert-WellKeyed r' d h)

module _ {W : Type 0} (clock : Clock W) (tenants : Slot W (Dict TenantRecord))
    (steady : Frames tenants.view clock.now) where
  abbrev IsKeyed : W → Type 0
  IsKeyed w = WellKeyed (tenants.view w)

  put-IsKeyed : (d : Dict TenantRecord) (w : W) → WellKeyed d → IsKeyed (tenants.put d w)
  put-IsKeyed d w h = subst WellKeyed (sym (tenants.view-put d w)) h

  update-IsKeyed :
      (missing : Result (Unit {0})) (change : TenantRecord → Action W TenantRecord)
      → ((r : TenantRecord) (w : W) → (change r w).0.tenant_id ≡ r.tenant_id)
      → (id : String) (w : W) → IsKeyed w
      → IsKeyed (update clock tenants missing change id w).1
  update-IsKeyed missing change own id w h = elim (Option-cases (Dict.lookup id (tenants.view w))) [
    | inl e ↦ rw (e, update) h
    | inr (r, e) ↦
        rw (e, update) (put-IsKeyed _ _ (put_back-WellKeyed id r _ (tenants.view w) h e (own r w)))
  ]

  perform-IsKeyed :
      (call : RegistryCall) (w : W)
      → IsKeyed w
      → IsKeyed (perform (mock_client clock tenants) call w)
  unfolding perform get_tenant create_tenant update_status update_activity update_bot_token
      update_idle_timeout list_all list_by_status list_idle_tenants delete_tenant
  perform-IsKeyed (get id) w h = h
  perform-IsKeyed (delete id) w h =
      put-IsKeyed (Dict.erase id (tenants.view w)) w (erase-WellKeyed id (tenants.view w) h)
  perform-IsKeyed (create r) w h = elim (Option-cases (Dict.lookup r.tenant_id (tenants.view w))) [
    | inr (old, e) ↦ rw (e, perform, create_tenant) h
    | inl e ↦
        rw (e, perform, create_tenant) (put-IsKeyed _ w (insert-WellKeyed r (tenants.view w) h))
  ]
  perform-IsKeyed (touch id) w h =
      update-IsKeyed _ (λ r w. (record r { last_active_at = (clock.now w).0 }, (clock.now w).1))
        (λ r w. refl) id w h
  perform-IsKeyed (set_status id s n ip) w h =
      update-IsKeyed _ (λ r w. (with_status r s n ip (clock.now w).0, (clock.now w).1))
        (λ r w. refl) id w h
  perform-IsKeyed (set_token id token) w h =
      update-IsKeyed _ (λ r w. (record r { bot_token = token }, w)) (λ r w. refl) id w h
  perform-IsKeyed (set_timeout id t) w h =
      update-IsKeyed _ (λ r w. (record r { idle_timeout_s = t }, w)) (λ r w. refl) id w h
  perform-IsKeyed all_tenants w h = h
  perform-IsKeyed (with_given_status s) w h = h
  perform-IsKeyed (idle_for age) w h = subst WellKeyed (sym (steady.at w)) h

  -- Whatever calls are made of `MockClient`, each record of its map stays under its own id, and no
  -- id is there twice, where reading the clock leaves the map alone.
  pub perform_all-WellKeyed :
      (calls : List RegistryCall) (w : W)
      → WellKeyed (tenants.view w)
      → WellKeyed (tenants.view (perform_all (mock_client clock tenants) calls w))
  unfolding perform_all
  perform_all-WellKeyed [] w h = h
  perform_all-WellKeyed (call ∷ rest) w h =
      perform_all-WellKeyed rest (perform (mock_client clock tenants) call w)
        (perform-IsKeyed call w h)
