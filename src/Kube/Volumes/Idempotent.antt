-- ===== src/Kube/Volumes/Idempotent.antt =====
-- When `CreatePVC` and `DeletePVC` succeed.
use agentic_tenancy.Base.{
  String, ◌≡◌, ◌↔◌, ◌⊎◌, inl, inr, refl, Bool, true, false, Error, Result, ok, err, arith,
  Bool-cases, Action, wrap,
}
use agentic_tenancy.Kube.Objects.{KubeClient, pvc_name, pv_name}
use agentic_tenancy.Kube.Volumes.{
  create_pvc, delete_pvc, tenant_volume, tenant_claim, unless_ignored,
}

-- The call succeeded, or failed with an error that does no harm.
abbrev pub Harmless : (Error → Bool) → Result (Unit {0}) → Type 0
Harmless ignored r = (r ≡ ok tt) ⊎ ((e : Error) × (r ≡ err e) × (ignored e ≡ true))

-- The early return of both operations.
unless_ignored_ok :
    {W : Type 0} (ignored : Error → Bool) (wrapped : Error → Error)
    (next : Action W (Result (Unit {0}))) (r : Result (Unit {0})) (w : W)
    → ((unless_ignored ignored wrapped next r w).0 ≡ ok tt)
      ↔ (Harmless ignored r × ((next w).0 ≡ ok tt))
unless_ignored_ok ignored wrapped next (ok tt) w = (λ h. (inl refl, h), λ p. p.1)
unless_ignored_ok ignored wrapped next (err e) w = elim (Bool-cases (ignored e)) [
  | inl t ↦ (λ h. (inr (e, refl, t), ground arith), λ p. ground arith)
  | inr f ↦ (λ h. absurd (ground arith), λ p. absurd (excluded f p.0))
]
  where
    excluded : ignored e ≡ false → Harmless ignored (err e) → ⊥
    excluded f (inl q) = cc
    excluded f (inr (x, q, t)) = ground arith

Harmless-or_not :
    (ignored : Error → Bool) (r : Result (Unit {0}))
    → Harmless ignored r ⊎ ((e : Error) × (r ≡ err e) × (ignored e ≡ false))
Harmless-or_not ignored (ok tt) = inl (inl refl)
Harmless-or_not ignored (err e) = elim (Bool-cases (ignored e)) [
  | inl t ↦ inl (inr (e, refl, t))
  | inr f ↦ inr (e, refl, f)
]

module _ {W : Type 0} (c : KubeClient W) (id ns : String) (w : W) where
  abbrev pub volume_made : Result (Unit {0}) × W
  volume_made = c.cs.create_volume (tenant_volume c id) w

  abbrev pub claim_made : Result (Unit {0}) × W
  claim_made = c.cs.create_claim ns (tenant_claim c id ns) volume_made.1

  abbrev pub claim_gone : Result (Unit {0}) × W
  claim_gone = c.cs.delete_claim ns (pvc_name id) w

  abbrev pub volume_gone : Result (Unit {0}) × W
  volume_gone = c.cs.delete_volume (pv_name id) claim_gone.1

  -- `CreatePVC` succeeds exactly when the volume and then the claim were created or existed
  -- already. If the volume failed otherwise, the claim is not tried and the error says "create PV".
  pub create_pvc_lem :
      (((create_pvc c id ns w).0 ≡ ok tt) ↔ (
        Harmless c.cs.is_already_exists volume_made.0
        × Harmless c.cs.is_already_exists claim_made.0))
      × (Harmless c.cs.is_already_exists volume_made.0
          ⊎ ((e : Error) × (volume_made.0 ≡ err e)
              × (create_pvc c id ns w ≡ (err (wrap "create PV" e), volume_made.1))))
  unfolding create_pvc
  create_pvc_lem =
      let ignored = c.cs.is_already_exists in
      let second = unless_ignored ignored (wrap "create PVC") (λ v. (ok tt, v)) in
      let outer =
        unless_ignored_ok ignored (wrap "create PV")
          (λ v. let (r, v') = c.cs.create_claim ns (tenant_claim c id ns) v in second r v')
          volume_made.0 volume_made.1 in
      let inner =
        unless_ignored_ok ignored (wrap "create PVC") (λ v. (ok tt, v)) claim_made.0 claim_made.1 in
      (
        (
          λ h. let (a, b) = outer.0 h in (a, (inner.0 b).0),
          λ p. outer.1 (p.0, inner.1 (p.1, refl)),
        ),
        elim (Harmless-or_not c.cs.is_already_exists volume_made.0) [
          | inl fine ↦ inl fine
          | inr (e, failed, hard) ↦ inr (e, failed, ground arith)
        ],
      )

  -- `DeletePVC` succeeds exactly when the claim and then the volume were deleted or did not exist.
  -- If the claim failed otherwise, the volume stays and the error is the claim's.
  pub delete_pvc_lem :
      (((delete_pvc c id ns w).0 ≡ ok tt)
        ↔ (Harmless c.cs.is_not_found claim_gone.0 × Harmless c.cs.is_not_found volume_gone.0))
      × (Harmless c.cs.is_not_found claim_gone.0
          ⊎ ((e : Error) × (claim_gone.0 ≡ err e) × (delete_pvc c id ns w ≡ (err e, claim_gone.1))))
  unfolding delete_pvc
  delete_pvc_lem =
      let ignored = c.cs.is_not_found in
      let second = unless_ignored ignored (λ e. e) (λ v. (ok tt, v)) in
      let outer =
        unless_ignored_ok ignored (λ e. e)
          (λ v. let (r, v') = c.cs.delete_volume (pv_name id) v in second r v') claim_gone.0
          claim_gone.1 in
      let inner =
        unless_ignored_ok ignored (λ e. e) (λ v. (ok tt, v)) volume_gone.0 volume_gone.1 in
      (
        (
          λ h. let (a, b) = outer.0 h in (a, (inner.0 b).0),
          λ p. outer.1 (p.0, inner.1 (p.1, refl)),
        ),
        elim (Harmless-or_not c.cs.is_not_found claim_gone.0) [
          | inl fine ↦ inl fine
          | inr (e, failed, hard) ↦ inr (e, failed, ground arith)
        ],
      )
