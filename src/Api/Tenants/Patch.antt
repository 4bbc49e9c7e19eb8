-- ===== src/Api/Tenants/Patch.antt =====
-- What `UpdateTenant` does to the registry.
use agentic_tenancy.Base.{
  String, ◌≡◌, ◌⊎◌, sym, ap, subst, ◌∙◌, Option, none, some, arith, eq_iff, Result-cases, inl, inr,
  string_eq, Action, pure, ◌>>=◌,
}
use agentic_tenancy.Base.Int64.{Int64}
use agentic_tenancy.Registry.{TenantRecord}
use agentic_tenancy.Registry.Laws.{Directory, IsRegistry, Written, Unchanged}
use agentic_tenancy.Api.{Handler, Response, tenant, redacted, register}
use agentic_tenancy.Api.Tenants.{UpdateRequest, update_tenant, set_token, set_timeout, reread}
use agentic_tenancy.Api.Frames.{TelegramFrames, register-Frames}

-- The fields that are present replace those of the record.
abbrev pub with_token : Option String → TenantRecord → TenantRecord
with_token none r = r
with_token (some token) r = record r { bot_token = token }

abbrev pub with_timeout : Option Int64 → TenantRecord → TenantRecord
with_timeout none r = r
with_timeout (some t) r = record r { idle_timeout_s = t }

module _ {W : Type 0} (h : Handler W) (IsGood : W → Type 0) (look : W → Directory)
    (reg : IsRegistry h.reg IsGood look) (telegram : TelegramFrames look h.tg) where
  -- From `w`, the tenant's record was changed by `f`, and the response shows it without its token.
  abbrev Patched : String → (TenantRecord → TenantRecord) → W → Response × W → Type 0
  Patched id f w (response, w') =
      (response.status ≡ 404)
      ⊎ ((r : TenantRecord) × (look w id ≡ some r)
          × (response.status ≡ 200)
          × (response.body ≡ tenant (redacted (f r)))
          × Written (look w) id (some (f r)) (look w'))

  abbrev read_back : String → Action W Response
  read_back id = h.reg.get_tenant id >>= λ found. pure (reread h found)

  read_back-Patched : (id : String) (w : W) → Patched id (λ r. r) w (read_back id w)
  read_back-Patched id w =
      let (found, w1) = h.reg.get_tenant id w in
      let kept = reg.get_frame id w in
      elim (Result-cases found) [
        | inr (x, e) ↦ inl (ground arith)
        | inl (none, e) ↦ inl (ground arith)
        | inl (some r, e) ↦
            let held : some r ≡ look w id = reg.get_reply id w (some r) e in
            inr (
              r,
              sym held,
              ground arith,
              ground arith,
              λ j. ground (arith, kept j, held, eq_iff id j),
            )
      ]

  -- One more change before the rest.
  Patched-then :
      (id : String) (g f : TenantRecord → TenantRecord) (r : TenantRecord) (w w1 : W)
      (x : Response × W)
      → look w id ≡ some r
      → Written (look w) id (some (g r)) (look w1)
      → Patched id f w1 x
      → Patched id (λ t. f (g t)) w x
  Patched-then id g f r w w1 x held written (inl e) = inl e
  Patched-then id g f r w w1 x held written (inr (r1, at, s, b, after)) =
      let same : g r ≡ r1 = ground (arith, written id, eq_iff id id) in
      inr (
        r,
        held,
        s,
        b ∙ ap (λ t. tenant (redacted (f t))) (sym same),
        λ j. ground (arith, after j, written j, same),
      )

  set_timeout-Patched :
      (o : Option Int64) (id : String) (w : W)
      → Patched id (with_timeout o) w (set_timeout h o id (read_back id) w)
  set_timeout-Patched none id w = read_back-Patched id w
  set_timeout-Patched (some t) id w =
      let (updated, w1) = h.reg.update_idle_timeout id t w in
      elim (Result-cases updated) [
        | inr (x, e) ↦ inl (ground arith)
        | inl (u, e) ↦
            let (r, held, written) = reg.timeout_updated id t w e in
            let same : set_timeout h (some t) id (read_back id) w ≡ read_back id w1 =
              ground arith in
            subst (Patched id (with_timeout (some t)) w) (sym same) (
              Patched-then id (with_timeout (some t)) (λ r. r) r w w1 _ held written
                (read_back-Patched id w1))
      ]

  -- A change of a tenant's token and timeout is answered 404, or it is answered 200: then the tenant
  -- had a record, which now has the token and the timeout that the request names and is otherwise
  -- as it was, no other record changed, and the response shows the new record without its token.
  -- The registry keeps its interface's promises, and Telegram does not touch it.
  pub update_tenant_lem :
      (id : String) (req : UpdateRequest) (w : W)
      → let (response, w') = update_tenant h id (some req) w in
        let change : TenantRecord → TenantRecord =
          λ r. with_timeout req.idle_timeout_s (with_token req.bot_token r) in
        (response.status ≡ 404)
        ⊎ ((r : TenantRecord) × (look w id ≡ some r)
            × (response.status ≡ 200)
            × (response.body ≡ tenant (redacted (change r)))
            × Written (look w) id (some (change r)) (look w'))
  unfolding update_tenant
  update_tenant_lem id req w = token_then id req.bot_token req.idle_timeout_s w
    where
      token_then :
          (id : String) (token : Option String) (t : Option Int64) (w : W)
          → Patched id
              (λ r. with_timeout t (with_token token r))
              w
              (set_token h token id (set_timeout h t id (read_back id)) w)
      token_then id none t w = set_timeout-Patched t id w
      token_then id (some token) t w =
          let (updated, w1) = h.reg.update_bot_token id token w in
          let w2 = (register h.tg token id w1).1 in
          let told : Unchanged (look w1) (look w2) =
            λ j. ap (λ f. f j) ((register-Frames look h.tg token id telegram).at w1) in
          elim (Result-cases updated) [
            | inr (x, e) ↦ inl (ground arith)
            | inl (u, e) ↦
                let (r, held, written) = reg.token_updated id token w e in
                let next = set_timeout h t id (read_back id) in
                let same : set_token h (some token) id next w ≡ next w2 = ground arith in
                subst (Patched id (λ r. with_timeout t (with_token (some token) r)) w) (sym same) (
                  Patched-then id (with_token (some token)) (with_timeout t) r w w2 _ held
                    (λ j. told j ∙ written j) (set_timeout-Patched t id w2))
          ]
