-- ===== src/Registry/Mock/WellKeyed.antt =====
-- The maps of `MockClient`, and what a selection from one lists.
use agentic_tenancy.Base.{
  String, ◌≡◌, refl, Bool, true, false, none, some, [], ◌∷◌, All, All-map, All-if, Bool-cases,
  Member, ◌==◌, string_eq, ==-refl, eq_iff, arith, inl, inr,
}
use agentic_tenancy.Base.Dict
use agentic_tenancy.Base.Dict.{Dict, lookup-insert, lookup-erase}
use agentic_tenancy.Registry.{status_eq, TenantRecord}
use agentic_tenancy.Registry.Laws.{Directory, Distinct, Lists}
use agentic_tenancy.Registry.Mock.{select}

-- Each record stands under its own id, and no key twice.
abbrev pub WellKeyed : Dict TenantRecord → Type 0
WellKeyed [] = Unit
WellKeyed ((k, r) ∷ d) = (r.tenant_id ≡ k) × (Dict.lookup k d ≡ none) × WellKeyed d

abbrev pub directory : Dict TenantRecord → Directory
directory d j = Dict.lookup j d

pub WellKeyed-keyed :
    (d : Dict TenantRecord)
    → WellKeyed d
    → (j : String) (r : TenantRecord) → directory d j ≡ some r
    → r.tenant_id ≡ j
unfolding Dict.lookup
WellKeyed-keyed [] h j r e = ground arith
WellKeyed-keyed ((k, s) ∷ d) h j r e = ground (arith, eq_iff k j, WellKeyed-keyed d h.2 j r)

pub insert-WellKeyed :
    (r : TenantRecord) (d : Dict TenantRecord)
    → WellKeyed d
    → WellKeyed (Dict.insert r.tenant_id r d)
unfolding Dict.insert Dict.lookup
insert-WellKeyed r [] h = (refl, refl, tt)
insert-WellKeyed r ((k, s) ∷ d) h = elim (Bool-cases (k == r.tenant_id)) [
  | inl e ↦ rw e (refl, ground (arith, eq_iff k r.tenant_id), h.2)
  | inr e ↦ rw e (
    h.0,
    simp lookup-insert (ground (arith, eq_iff k r.tenant_id, eq_iff r.tenant_id k)),
    insert-WellKeyed r d h.2,
  )
]

pub erase-WellKeyed :
    (k : String) (d : Dict TenantRecord) → WellKeyed d → WellKeyed (Dict.erase k d)
unfolding Dict.erase
erase-WellKeyed k [] h = tt
erase-WellKeyed k ((j, r) ∷ d) h = elim (Bool-cases (j == k)) [
  | inl e ↦ rw e (erase-WellKeyed k d h.2)
  | inr e ↦ rw e (h.0, simp lookup-erase (ground (arith)), erase-WellKeyed k d h.2)
]

module _ (p : TenantRecord → Bool) where
  select_sound :
      (d : Dict TenantRecord)
      → WellKeyed d
      → All (λ t. (directory d t.tenant_id ≡ some t) × (p t ≡ true)) (select p d)
  unfolding select Dict.lookup
  select_sound [] h = tt
  select_sound ((k, r) ∷ d) h =
      All-if _ (p r) r (select p d) (λ e. (ground (arith, ==-refl k, eq_iff k r.tenant_id), e))
        (All-map _ _ (select p d) (λ t a. ground (arith, eq_iff k t.tenant_id))
          (select_sound d h.2))

  select_complete :
      (d : Dict TenantRecord) (j : String) (r : TenantRecord)
      → directory d j ≡ some r
      → p r ≡ true
      → Member r (select p d)
  unfolding select Dict.lookup
  select_complete [] j r e q = ground arith
  select_complete ((k, s) ∷ d) j r e q = ground (arith, select_complete d j r)

  -- A key that is not in the map names no selected record.
  select-misses :
      (d : Dict TenantRecord) (k : String)
      → WellKeyed d
      → directory d k ≡ none
      → All (λ u. (k == u.tenant_id) ≡ false) (select p d)
  select-misses d k h e =
      All-map _ _ (select p d) (λ t a. ground (arith, eq_iff k t.tenant_id)) (select_sound d h)

  select-Distinct : (d : Dict TenantRecord) → WellKeyed d → Distinct (select p d)
  unfolding select
  select-Distinct [] h = tt
  select-Distinct ((k, r) ∷ d) h = elim (Bool-cases (p r)) [
    | inl e ↦ rw e (rw (h.0) (select-misses d k h.2 h.1), select-Distinct d h.2)
    | inr e ↦ rw e (select-Distinct d h.2)
  ]

  pub select-Lists :
      (d : Dict TenantRecord) → WellKeyed d → Lists (directory d) (λ r. p r ≡ true) (select p d)
  select-Lists d h = record {
    sound = select_sound d h;
    complete = select_complete d;
    distinct = select-Distinct d h;
  }
