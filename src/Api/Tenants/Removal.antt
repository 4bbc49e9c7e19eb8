-- ===== src/Api/Tenants/Removal.antt =====
-- What `DeleteTenant` does to the registry.
use agentic_tenancy.Base.{
  String, ◌≡◌, ◌⊎◌, refl, sym, ap, subst, ◌∙◌, none, some, arith, eq_iff, Result-cases, inl, inr,
  string_eq,
}
use agentic_tenancy.Registry.{TenantRecord}
use agentic_tenancy.Registry.Laws.{Directory, IsRegistry, Written, Unchanged}
use agentic_tenancy.Api.{Handler, Response, http_error}
use agentic_tenancy.Api.Tenants.{
  delete_tenant, remove_record, delete_objects, clear_cache, remove_webhook, no_content,
}
use agentic_tenancy.Api.Frames.{
  TelegramFrames, OptionalKubeFrames, RedisFrames, remove_webhook-Frames, clear_cache-Frames,
  delete_objects-Frames,
}

module _ {W : Type 0} (h : Handler W) (IsGood : W → Type 0) (look : W → Directory)
    (reg : IsRegistry h.reg IsGood look) (kube : OptionalKubeFrames look h.k8s)
    (redis : RedisFrames look h.rdb) (telegram : TelegramFrames look h.tg) where
  abbrev Removed : String → W → Response × W → Type 0
  Removed id w (response, w') =
      ((response.status ≡ 204) × Written (look w) id none (look w'))
      ⊎ ((response.status ≡ 500) × Unchanged (look w) (look w'))

  abbrev failed : Response
  failed = http_error 500 "internal error"

  remove_record-Removed :
      (id : String) (rec : TenantRecord) (w : W) → Removed id w (remove_record h id rec w)
  remove_record-Removed id rec w =
      let w1 = (delete_objects h h.k8s id rec w).1 in
      let (deleted, w2) = h.reg.delete_tenant id w1 in
      let w3 = (clear_cache h h.rdb id w2).1 in
      let w4 = (remove_webhook h h.tg rec.bot_token w3).1 in
      let before : Unchanged (look w) (look w1) =
        λ j. ap (λ f. f j) ((delete_objects-Frames look h h.k8s id rec kube).at w) in
      let after : Unchanged (look w2) (look w4) = λ j.
        ap (λ f. f j)
          ((remove_webhook-Frames look h h.tg rec.bot_token telegram).at w3
            ∙ (clear_cache-Frames look h h.rdb id redis).at w2) in
      elim (Result-cases deleted) [
        | inl (u, e) ↦
            let gone = reg.deleted id w1 e in
            let same : remove_record h id rec w ≡ (no_content h, w4) = ground arith in
            subst (Removed id w) (sym same)
              (inl (refl, λ j. ground (arith, before j, after j, gone j)))
        | inr (x, e) ↦
            let stays = reg.delete_failed id w1 x e in
            let same : remove_record h id rec w ≡ (failed, w2) = ground arith in
            subst (Removed id w) (sym same) (inr (refl, λ j. stays j ∙ before j))
      ]

  -- A deletion is answered 204, and then the tenant has no record any more and no other record
  -- changed, or it is answered 500 and the registry is as it was. The registry keeps its
  -- interface's promises, and the calls of Kubernetes, Redis and Telegram do not touch it.
  pub delete_tenant_lem :
      (id : String) (w : W)
      → let (response, w') = delete_tenant h id w in
        ((response.status ≡ 204) × Written (look w) id none (look w'))
        ⊎ ((response.status ≡ 500) × Unchanged (look w) (look w'))
  unfolding delete_tenant
  delete_tenant_lem id w =
      let (found, w1) = h.reg.get_tenant id w in
      let kept = reg.get_frame id w in
      elim (Result-cases found) [
        | inr (x, e) ↦
            let same : delete_tenant h id w ≡ (failed, w1) = ground arith in
            subst (Removed id w) (sym same) (inr (refl, kept))
        | inl (none, e) ↦
            let missing = reg.get_reply id w none e in
            let same : delete_tenant h id w ≡ (no_content h, w1) = ground arith in
            subst (Removed id w) (sym same)
              (inl (refl, λ j. ground (arith, missing, kept j, eq_iff id j)))
        | inl (some rec, e) ↦
            let same : delete_tenant h id w ≡ remove_record h id rec w1 = ground arith in
            subst (Removed id w) (sym same) (elim (remove_record-Removed id rec w1) [
              | inl (s, written) ↦ inl (s, λ j. ground (arith, kept j, written j))
              | inr (s, stays) ↦ inr (s, λ j. stays j ∙ kept j)
            ])
      ]
