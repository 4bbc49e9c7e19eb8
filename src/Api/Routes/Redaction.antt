-- ===== src/Api/Routes/Redaction.antt =====
-- Which responses hold a bot token.
use agentic_tenancy.Base.{
  String, ◌≡◌, ◌⊎◌, refl, Option, none, some, List, [], ◌∷◌, map, Result, Action, All, arith,
  Result-cases, inl, inr, string_eq,
}
use agentic_tenancy.Registry.{TenantRecord}
use agentic_tenancy.Base.Int64.{Int64}
use agentic_tenancy.Api.{
  Handler, register, Body, Response, tenant, tenants, bot_token_json, redacted,
}
use agentic_tenancy.Api.Tenants
use agentic_tenancy.Api.Wake.{wake}
use agentic_tenancy.Api.Routes.{
  ApiRequest, get_healthz, list_tenants, post_tenant, get_tenant, get_bot_token, patch_tenant,
  delete_tenant, put_activity, post_wake, serve,
}

-- A body that shows no tenant's token.
abbrev pub IsTokenFree : Body → Type 0
IsTokenFree (tenant r) = r.bot_token ≡ ""
IsTokenFree (tenants l) = All (λ r. r.bot_token ≡ "") l
IsTokenFree (bot_token_json _) = ⊥
IsTokenFree _ = Unit

-- The one route that shows a token, to the router.
abbrev pub IsForToken : ApiRequest → Type 0
IsForToken (get_bot_token _) = Unit
IsForToken _ = ⊥

redacted-All : (l : List TenantRecord) → All (λ r. r.bot_token ≡ "") (map redacted l)
redacted-All [] = tt
redacted-All (r ∷ l) = (refl, redacted-All l)

module _ {W : Type 0} (h : Handler W) where
  create_tenant-IsTokenFree :
      (req : Option Tenants.CreateRequest) (w : W)
      → IsTokenFree (Tenants.create_tenant h req w).0.body
  unfolding Tenants.create_tenant
  create_tenant-IsTokenFree none w = tt
  create_tenant-IsTokenFree (some req) w = ground arith

  list_tenants-IsTokenFree : (w : W) → IsTokenFree (Tenants.list_tenants h w).0.body
  unfolding Tenants.list_tenants
  list_tenants-IsTokenFree w = elim (Result-cases (h.reg.list_all w).0) [
    | inl (l, e) ↦ ground (arith, redacted-All l)
    | inr e ↦ ground arith
  ]

  get_tenant-IsTokenFree : (id : String) (w : W) → IsTokenFree (Tenants.get_tenant h id w).0.body
  unfolding Tenants.get_tenant
  get_tenant-IsTokenFree id w = ground arith

  reread-IsTokenFree : (r : Result (Option TenantRecord)) → IsTokenFree (Tenants.reread h r).body
  reread-IsTokenFree r = ground arith

  set_timeout-IsTokenFree :
      (o : Option Int64) (id : String) (next : Action W Response)
      → ((w : W) → IsTokenFree (next w).0.body)
      → (w : W) → IsTokenFree (Tenants.set_timeout h o id next w).0.body
  set_timeout-IsTokenFree none id next f w = f w
  set_timeout-IsTokenFree (some t) id next f w =
      ground (arith, f (h.reg.update_idle_timeout id t w).1)

  set_token-IsTokenFree :
      (o : Option String) (id : String) (next : Action W Response)
      → ((w : W) → IsTokenFree (next w).0.body)
      → (w : W) → IsTokenFree (Tenants.set_token h o id next w).0.body
  set_token-IsTokenFree none id next f w = f w
  set_token-IsTokenFree (some t) id next f w =
      let w1 = (h.reg.update_bot_token id t w).1 in ground (arith, f (register h.tg t id w1).1)

  update_tenant-IsTokenFree :
      (id : String) (req : Option Tenants.UpdateRequest) (w : W)
      → IsTokenFree (Tenants.update_tenant h id req w).0.body
  unfolding Tenants.update_tenant
  update_tenant-IsTokenFree id none w = tt
  update_tenant-IsTokenFree id (some req) w =
      set_token-IsTokenFree req.bot_token id (Tenants.set_timeout h req.idle_timeout_s id _)
        (set_timeout-IsTokenFree req.idle_timeout_s id _
          (λ w. reread-IsTokenFree (h.reg.get_tenant id w).0))
        w

  delete_tenant-IsTokenFree :
      (id : String) (w : W) → IsTokenFree (Tenants.delete_tenant h id w).0.body
  unfolding Tenants.delete_tenant
  delete_tenant-IsTokenFree id w = ground arith

  update_activity-IsTokenFree :
      (id : String) (w : W) → IsTokenFree (Tenants.update_activity h id w).0.body
  unfolding Tenants.update_activity
  update_activity-IsTokenFree id w = ground arith

  wake-IsTokenFree : (id : String) (w : W) → IsTokenFree (wake h id w).0.body
  unfolding wake
  wake-IsTokenFree id w = ground arith

  -- No route but that of the bot token answers with a tenant's token, on any branch.
  pub serve-IsTokenFree : (q : ApiRequest) (w : W) → IsForToken q ⊎ IsTokenFree (serve h q w).0.body
  unfolding serve
  serve-IsTokenFree get_healthz w = inr tt
  serve-IsTokenFree (post_tenant req) w = inr (create_tenant-IsTokenFree req w)
  serve-IsTokenFree list_tenants w = inr (list_tenants-IsTokenFree w)
  serve-IsTokenFree (get_tenant id) w = inr (get_tenant-IsTokenFree id w)
  serve-IsTokenFree (get_bot_token id) w = inl tt
  serve-IsTokenFree (patch_tenant id req) w = inr (update_tenant-IsTokenFree id req w)
  serve-IsTokenFree (delete_tenant id) w = inr (delete_tenant-IsTokenFree id w)
  serve-IsTokenFree (put_activity id) w = inr (update_activity-IsTokenFree id w)
  serve-IsTokenFree (post_wake id) w = inr (wake-IsTokenFree id w)
