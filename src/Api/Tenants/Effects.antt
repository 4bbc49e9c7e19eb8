-- ===== src/Api/Tenants/Effects.antt =====
-- What the handlers of `/tenants` do to the registry.
use agentic_tenancy.Base.{
  ℕ, zero, suc, String, if◌then◌else◌, ◌≡◌, ◌≢◌, ◌⊎◌, refl, sym, ap, subst, ◌∙◌, none, some, arith,
  Result-cases, Bool-cases, inl, inr, ◌==◌, string_eq, eq_iff, nat_eq,
}
use agentic_tenancy.Registry.{TenantRecord, idle}
use agentic_tenancy.Registry.Laws.{Directory, IsRegistry, Written, Unchanged}
use agentic_tenancy.Services.{Frames}
use agentic_tenancy.Api.{Handler, Response, register, tenant, redacted, http_error}
use agentic_tenancy.Api.Tenants.{CreateRequest, new_record, create_tenant}
use agentic_tenancy.Api.Frames.{TelegramFrames, register-Frames}

abbrev created_reply : TenantRecord → Response
created_reply rec = record { status = 201; body = tenant (redacted rec) }

abbrev conflict : Response
conflict = http_error 409 "conflict"

-- The seconds that a request asks for, 300 where it asks for none.
pub asked_timeout : ℕ → ℕ
asked_timeout zero = 300
asked_timeout (suc n) = suc n

-- The record of a new tenant, from the request.
abbrev pub IsNew : CreateRequest → TenantRecord → Type 0
IsNew req r =
    (r.tenant_id ≡ req.tenant_id)
    × (r.bot_token ≡ req.bot_token)
    × (r.idle_timeout_s ≡ asked_timeout req.idle_timeout_s)
    × (r.status ≡ idle)
    × (r.pod_name ≡ "")
    × (r.pod_ip ≡ "")

asked_timeout_lem : (n : ℕ) → (if n == 0 then 300 else n) ≡ asked_timeout n
unfolding asked_timeout
asked_timeout_lem zero = refl
asked_timeout_lem (suc n) = ground arith

module _ {W : Type 0} (h : Handler W) (IsGood : W → Type 0) (look : W → Directory)
    (reg : IsRegistry h.reg IsGood look) (tells : Frames look h.clock.now)
    (telegram : TelegramFrames look h.tg) where
  -- A creation that is answered 201 found no such tenant and stored a new record, idle and without pod
  -- and IP, with the id, the token and the timeout of the request, 300 seconds where it asks for 0, and
  -- no other record changed; any other answer is 409 and leaves the registry as it was. The request
  -- names a tenant, the registry keeps its interface's promises, among them that a write that fails
  -- changes nothing, and the clock and Telegram do not touch it.
  pub create_tenant_lem :
      (req : CreateRequest) (w : W)
      → req.tenant_id ≢ ""
      → let (response, w') = create_tenant h (some req) w in
        ((response.status ≡ 201)
          × (look w req.tenant_id ≡ none)
          × (r : TenantRecord) × IsNew req r
          × Written (look w) req.tenant_id (some r) (look w'))
        ⊎ ((response.status ≡ 409) × Unchanged (look w) (look w'))
  unfolding create_tenant
  create_tenant_lem req w named =
      let (t1, w1) = h.clock.now w in
      let (t2, w2) = h.clock.now w1 in
      let rec = new_record h req t1 t2 in
      let (stored, w3) = h.reg.create_tenant rec w2 in
      let told : (j : String) → look w2 j ≡ look w j =
        λ j. ap (λ f. f j) (tells.at w1 ∙ tells.at w) in
      let registered = register-Frames look h.tg req.bot_token req.tenant_id telegram in
      let w4 = (register h.tg req.bot_token req.tenant_id w3).1 in
      let after : look w4 ≡ look w3 = registered.at w3 in
      elim (Bool-cases (req.tenant_id == "")) [
        | inl e ↦ absurd (named ((eq_iff req.tenant_id "").0 e))
        | inr e ↦ elim (Result-cases stored) [
          | inl (u, p) ↦
              let (new, written) = reg.created rec w2 p in
              let same : create_tenant h (some req) w ≡ (created_reply rec, w4) = ground arith in
              subst
                (λ x.
                  (((x.0).status ≡ 201)
                    × (look w req.tenant_id ≡ none)
                    × (r : TenantRecord) × IsNew req r
                    × Written (look w) req.tenant_id (some r) (look x.1))
                  ⊎ (((x.0).status ≡ 409) × Unchanged (look w) (look x.1)))
                (sym same)
                (inl (
                  refl,
                  ground (arith, told req.tenant_id),
                  rec,
                  (refl, refl, asked_timeout_lem req.idle_timeout_s, refl, refl, refl),
                  λ j. ground (arith, ap (λ f. f j) after, written j, told j),
                ))
          | inr (x, p) ↦
              let stays = reg.create_failed rec w2 x p in
              let same : create_tenant h (some req) w ≡ (conflict, w3) = ground arith in
              subst
                (λ x.
                  (((x.0).status ≡ 201)
                    × (look w req.tenant_id ≡ none)
                    × (r : TenantRecord) × IsNew req r
                    × Written (look w) req.tenant_id (some r) (look x.1))
                  ⊎ (((x.0).status ≡ 409) × Unchanged (look w) (look x.1)))
                (sym same) (inr (refl, λ j. stays j ∙ told j))
        ]
      ]
