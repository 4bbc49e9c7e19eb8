-- ===== src/Router/Cache.antt =====
-- What an update does to the cache of endpoints.
use agentic_tenancy.Base.{
  ℕ, String, ◌≡◌, ◌⊎◌, inl, inr, refl, ap, ◌∙◌, false, Option, none, some, Error, ok, err, Action,
  arith, ◌==◌, ◌<>◌, prefixed_eq, string_eq, ==-refl, if◌then◌else◌, Preorder, Moves, Result-cases,
  nat_eq,
}
use agentic_tenancy.Services.{Redis, Frames}
use agentic_tenancy.Router.Steps.{Allows, Stores, woken_at, handle_telegram_update-Moves}
use agentic_tenancy.Router.{endpoint_cache_ttl, Router, wake_pod, handle_telegram_update}

abbrev pub Cache : Type 0
Cache = String → Option String

-- The documented behaviour of `GET`, `SET` and `DEL`, where no key expires. A call that fails may
-- have been carried out.
pub record IsCache {W : Type 0} (rdb : Redis W) (cache : W → Cache) : Type 0 where
  pub get_frame : (k : String) → Frames cache (rdb.get k)
  pub set_done :
      (k v : String) (ttl : ℕ) (w : W)
      → (rdb.set k v ttl w).0 ≡ ok tt
      → (j : String) → cache (rdb.set k v ttl w).1 j ≡ (if k == j then some v else cache w j)
  pub set_failed :
      (k v : String) (ttl : ℕ) (w : W) (e : Error)
      → (rdb.set k v ttl w).0 ≡ err e
      → ((j : String) → cache (rdb.set k v ttl w).1 j ≡ cache w j)
        ⊎ ((j : String) → cache (rdb.set k v ttl w).1 j ≡ (if k == j then some v else cache w j))
  pub del_done :
      (k : String) (w : W)
      → (rdb.del k w).0 ≡ ok tt
      → (j : String) → cache (rdb.del k w).1 j ≡ (if k == j then none else cache w j)
  pub del_failed :
      (k : String) (w : W) (e : Error)
      → (rdb.del k w).0 ≡ err e
      → ((j : String) → cache (rdb.del k w).1 j ≡ cache w j)
        ⊎ ((j : String) → cache (rdb.del k w).1 j ≡ (if k == j then none else cache w j))

module _ {W : Type 0} (cache : W → Cache) (key : String) (Fits : String → Type 0) where
  -- From `w` to `w'` only the entry of `key` may have changed: it is as it was, or gone, or a text
  -- that fits.
  abbrev pub OnlyEntry : W → W → Type 0
  OnlyEntry w w' =
      ((j : String) → (key == j) ≡ false → cache w' j ≡ cache w j)
      × ((cache w' key ≡ cache w key)
          ⊎ ((cache w' key ≡ none) ⊎ ((ip : String) × Fits ip × (cache w' key ≡ some ip))))

  OnlyEntry-chain : (w1 w2 w3 : W) → OnlyEntry w1 w2 → OnlyEntry w2 w3 → OnlyEntry w1 w3
  OnlyEntry-chain w1 w2 w3 (a, own) (b, inl same) = (
    λ j ne. b j ne ∙ a j ne,
    elim own [
      | inl e ↦ inl (same ∙ e)
      | inr (inl e) ↦ inr (inl (same ∙ e))
      | inr (inr (ip, fits, e)) ↦ inr (inr (ip, fits, same ∙ e))
    ],
  )
  OnlyEntry-chain w1 w2 w3 (a, own) (b, inr changed) = (λ j ne. b j ne ∙ a j ne, inr changed)

  pub OnlyEntry-Preorder : Preorder OnlyEntry
  OnlyEntry-Preorder = record { stay = λ w. (λ j ne. refl, inl refl); chain = OnlyEntry-chain }

  pub Frames-OnlyEntry : {A : Type 0} (m : Action W A) → Frames cache m → Moves OnlyEntry m
  Frames-OnlyEntry m f w = (λ j ne. ap (λ g. g j) (f.at w), inl (ap (λ g. g key) (f.at w)))

module _ {W : Type 0} (rt : Router W) (cache : W → Cache) (redis : IsCache rt.rdb cache)
    (sends : (m u c b : String) → Frames cache (rt.http.send m u c b)) (id : String)
    (Fits : String → Type 0) where
  abbrev key : String
  key = "router:endpoint:" <> id

  removed :
      (w w' : W)
      → ((j : String) → cache w' j ≡ (if key == j then none else cache w j))
      → OnlyEntry cache key Fits w w'
  removed w w' gone =
      (λ j ne. ground (arith, gone j), inr (inl (ground (arith, gone key, ==-refl key))))

  written :
      (w w' : W) (ip : String)
      → Fits ip
      → ((j : String) → cache w' j ≡ (if key == j then some ip else cache w j))
      → OnlyEntry cache key Fits w w'
  written w w' ip fits set =
      (λ j ne. ground (arith, set j), inr (inr (ip, fits, ground (arith, set key, ==-refl key))))

  clears : Moves (OnlyEntry cache key Fits) (rt.rdb.del key)
  clears w = elim (Result-cases (rt.rdb.del key w).0) [
    | inl (u, e) ↦ removed w _ (redis.del_done key w e)
    | inr (x, e) ↦ elim (redis.del_failed key w x e) [
      | inl stays ↦ (λ j ne. stays j, inl (stays key))
      | inr gone ↦ removed w _ gone
    ]
  ]

  pub stores :
      (v : W)
      → ((ip : String) → (wake_pod rt id v).0 ≡ ok ip → Fits ip)
      → Stores rt id (OnlyEntry cache key Fits) v
  stores v fits ip came w = elim (Result-cases (rt.rdb.set key ip endpoint_cache_ttl w).0) [
    | inl (u, e) ↦ written w _ ip (fits ip came) (redis.set_done key ip endpoint_cache_ttl w e)
    | inr (x, e) ↦ elim (redis.set_failed key ip endpoint_cache_ttl w x e) [
      | inl stays ↦ (λ j ne. stays j, inl (stays key))
      | inr set ↦ written w _ ip (fits ip came) set
    ]
  ]

  cache-Allows : Allows rt id (OnlyEntry cache key Fits)
  cache-Allows = record {
    order = OnlyEntry-Preorder cache key Fits;
    sends = λ m u c b. Frames-OnlyEntry cache key Fits (rt.http.send m u c b) (sends m u c b);
    reads = Frames-OnlyEntry cache key Fits (rt.rdb.get key) (redis.get_frame key);
    clears = clears;
  }

  -- From `w` to `w'` the entries of the other tenants stay, and of all entries only that of the
  -- tenant may have changed: it is as it was, or gone, or a text that fits.
  abbrev pub OnlyOwn : W → W → Type 0
  OnlyOwn w w' =
      ((j : String)
        → (id == j) ≡ false
        → cache w' ("router:endpoint:" <> j) ≡ cache w ("router:endpoint:" <> j))
      × OnlyEntry cache ("router:endpoint:" <> id) Fits w w'

  pub update-OnlyOwn :
      (body : String) (w : W)
      → ((ip : String) → (wake_pod rt id (woken_at rt id body w)).0 ≡ ok ip → Fits ip)
      → OnlyOwn w (handle_telegram_update rt id body w).1
  update-OnlyOwn body w fits =
      let only =
        handle_telegram_update-Moves rt id _ cache-Allows body w
          (stores (woken_at rt id body w) fits) in
      (λ j ne. only.0 ("router:endpoint:" <> j) (prefixed_eq "router:endpoint:" id j ∙ ne), only)

module _ {W : Type 0} (rt : Router W) (cache : W → Cache) (redis : IsCache rt.rdb cache)
    (sends : (m u c b : String) → Frames cache (rt.http.send m u c b)) where
  -- An update changes no other tenant's entry `router:endpoint:<id>` of the endpoint cache, and no
  -- other key. The tenant's own entry is afterwards as it was, or gone, or the IP that the wake of
  -- this tenant returned, in the world in which the update asked for it: whatever the pod, the
  -- orchestrator and Telegram answer, or if one of them fails. Redis behaves as documented, where a
  -- call that fails may have been carried out, no key expires meanwhile, and a request does not
  -- touch Redis.
  pub handle_telegram_update-OnlyEntry :
      (id body : String) (w : W)
      → OnlyOwn rt cache redis sends id
          (λ ip. (wake_pod rt id (woken_at rt id body w)).0 ≡ ok ip)
          w
          (handle_telegram_update rt id body w).1
  handle_telegram_update-OnlyEntry id body w =
      update-OnlyOwn rt cache redis sends id _ body w (λ ip came. came)
