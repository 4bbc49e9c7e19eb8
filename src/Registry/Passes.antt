-- ===== src/Registry/Passes.antt =====
-- Passes over a list of tenants that treat one record at a time, as the idle check and the
-- reconciler do: the bookkeeping that their proofs share.
use agentic_tenancy.Base.{
  String, ◌≡◌, ◌⊎◌, inl, inr, refl, sym, ap, subst, ◌∙◌, false, Option, some, List, ◌∷◌, All,
  All-zip, Member, Bool-cases, ◌==◌, string_eq, eq_of_==,
}
use agentic_tenancy.Registry.{TenantRecord}
use agentic_tenancy.Registry.Laws.{Directory, Distinct, Unchanged}

-- `Done t o`: the treatment of `t` has left `o` under its id.
module _ {W : Type 0} (look : W → Directory)
    (Done : TenantRecord → Option TenantRecord → Type 0) where
  -- From `w` to `w'` only the record of `t` may have changed, and only by being treated.
  abbrev pub Handled : TenantRecord → W → W → Type 0
  Handled t w w' =
      ((j : String) → (t.tenant_id == j) ≡ false → look w' j ≡ look w j)
      × ((look w' t.tenant_id ≡ look w t.tenant_id) ⊎ Done t (look w' t.tenant_id))

  -- The record under `j` is as before, or a tenant of the list was treated there.
  abbrev pub Outcome : List TenantRecord → String → W → W → Type 0
  Outcome l j w w' =
      (look w' j ≡ look w j)
      ⊎ ((t : TenantRecord) × Member t l × (t.tenant_id ≡ j) × Done t (look w' j))

  pub Handled-after :
      (t : TenantRecord) (w w1 w2 : W)
      → Unchanged (look w) (look w1)
      → Handled t w1 w2
      → Handled t w w2
  Handled-after t w w1 w2 same (others, inl own) =
      (λ j ne. others j ne ∙ same j, inl (own ∙ same t.tenant_id))
  Handled-after t w w1 w2 same (others, inr own) = (λ j ne. others j ne ∙ same j, inr own)

  pub Handled-same : (t : TenantRecord) (w w' : W) → Unchanged (look w) (look w') → Handled t w w'
  Handled-same t w w' same = (λ j _. same j, inl (same t.tenant_id))

  -- What that says of one tenant, where a later world `w2` holds the same record for it.
  Handled-at :
      (t : TenantRecord) (w w1 w2 : W) (j : String)
      → Handled t w w1
      → look w2 j ≡ look w1 j
      → (look w2 j ≡ look w j) ⊎ ((t.tenant_id ≡ j) × Done t (look w2 j))
  Handled-at t w w1 w2 j (others, own) same = elim (Bool-cases (t.tenant_id == j)) [
    | inr ne ↦ inl (same ∙ others j ne)
    | inl e ↦ named (eq_of_== t.tenant_id j e) own
  ]
    where
      named :
          t.tenant_id ≡ j
          → (look w1 t.tenant_id ≡ look w t.tenant_id) ⊎ Done t (look w1 t.tenant_id)
          → (look w2 j ≡ look w j) ⊎ ((t.tenant_id ≡ j) × Done t (look w2 j))
      named e (inl stays) = inl (same ∙ subst (λ k. look w1 k ≡ look w k) e stays)
      named e (inr ends) = inr (e, subst (Done t) (ap (look w1) e ∙ sym same) ends)

  -- The first tenant is treated, then the rest.
  pub Outcome-cons :
      (t : TenantRecord) (rest : List TenantRecord) (j : String) (w w1 w2 : W)
      → Handled t w w1
      → Outcome rest j w1 w2
      → Outcome (t ∷ rest) j w w2
  Outcome-cons t rest j w w1 w2 first (inr (u, m, e, ends)) = inr (u, inr m, e, ends)
  Outcome-cons t rest j w w1 w2 first (inl same) = elim (Handled-at t w w1 w2 j first same) [
    | inl stays ↦ inl stays
    | inr (e, ends) ↦ inr (t, inl refl, e, ends)
  ]

  -- The records of the rest are still stored.
  pub still_held :
      (t : TenantRecord) (rest : List TenantRecord) (w w1 : W)
      → Handled t w w1
      → All (λ u. look w u.tenant_id ≡ some u) (t ∷ rest)
      → Distinct (t ∷ rest)
      → All (λ u. look w1 u.tenant_id ≡ some u) rest
  still_held t rest w w1 (others, _) held d =
      All-zip _ _ (λ u. look w1 u.tenant_id ≡ some u) rest
        (λ u (e : look w u.tenant_id ≡ some u) (ne : (t.tenant_id == u.tenant_id) ≡ false).
          others u.tenant_id ne ∙ e)
        held.1 d.0

module _ {W : Type 0} (look : W → Directory)
    (Done Ends : TenantRecord → Option TenantRecord → Type 0) where
  pub Handled-map :
      (t : TenantRecord) (w w' : W)
      → ((o : Option TenantRecord) → Done t o → Ends t o)
      → Handled look Done t w w'
      → Handled look Ends t w w'
  Handled-map t w w' f (others, inl same) = (others, inl same)
  Handled-map t w w' f (others, inr ends) = (others, inr (f (look w' t.tenant_id) ends))

  pub Outcome-map :
      (l : List TenantRecord) (j : String) (w w' : W)
      → ((t : TenantRecord) (o : Option TenantRecord) → Done t o → Ends t o)
      → Outcome look Done l j w w'
      → Outcome look Ends l j w w'
  Outcome-map l j w w' f (inl same) = inl same
  Outcome-map l j w w' f (inr (t, m, named, ends)) = inr (t, m, named, f t (look w' j) ends)
