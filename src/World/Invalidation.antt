-- ===== src/World/Invalidation.antt =====
-- What `invalidatePropertyCache` leaves in the cache.
use vibehouse_backend.Common.{
  ℕ, ◌≡◌, refl, Bool, true, Option, none, List, [], ◌∷◌, find, delete_where, Bool-cases, inl, inr,
  arith,
}
use vibehouse_backend.World.{
  World, Services, Scope, CacheKey, catalog, services, borrowables, admin_products, admin_stock,
  key_eq, cache_del, invalidate_property_cache,
}

module _ {ℓ} {A : Type ℓ} (p : A → Bool) where
  find-delete_where : (xs : List A) → find p (delete_where p xs) ≡ none
  unfolding find delete_where
  find-delete_where [] = refl
  find-delete_where (x ∷ xs) =
      let ih = find-delete_where xs in
      elim (Bool-cases (p x)) [ inl hit ↦ rw hit ih | inr miss ↦ rw (miss, miss) ih ]

  find-delete_other :
      (q : A → Bool) (xs : List A) → find p xs ≡ none → find p (delete_where q xs) ≡ none
  unfolding find delete_where
  find-delete_other q [] h = refl
  find-delete_other q (x ∷ xs) h = elim (Bool-cases (p x)) [
    | inl hit ↦ absurd (ground arith)
    | inr miss ↦
        let ih = find-delete_other q xs (ground arith) in
        elim (Bool-cases (q x)) [ inl drop ↦ rw drop ih | inr keep ↦ rw (keep, miss) ih ]
  ]

abbrev pub cached : CacheKey → World → Option (CacheKey × List ℕ)
cached k w = find (λ e. key_eq k e.0) w.cache

-- The five views of a scope.
pub data ViewOf : Scope → CacheKey → Type 0 where
  of_catalog : {s : Scope} → ViewOf s (catalog s)
  of_services : {s : Scope} → ViewOf s (services s)
  of_borrowables : {s : Scope} → ViewOf s (borrowables s)
  of_products : {s : Scope} → ViewOf s (admin_products s)
  of_stock : {s : Scope} → ViewOf s (admin_stock s)

module _ (env : Services) where
  cache_del-gone :
      (k : CacheKey) (w : World) → env.redis_up k ≡ true → cached k (cache_del env k w).1 ≡ none
  unfolding cache_del
  cache_del-gone k w up = rw up (find-delete_where (λ e. key_eq k e.0) w.cache)

  cache_del-stays :
      (k l : CacheKey) (w : World) → cached k w ≡ none → cached k (cache_del env l w).1 ≡ none
  unfolding cache_del
  cache_del-stays k l w h = elim (Bool-cases (env.redis_up l)) [
    | inl up ↦ rw up (find-delete_other (λ e. key_eq k e.0) (λ e. key_eq l e.0) w.cache h)
    | inr down ↦ rw down h
  ]

  -- The worlds between the five deletions.
  abbrev deleted : CacheKey → World → World
  deleted k w = (cache_del env k w).1

  abbrev first : Scope → World → World
  first s w = deleted (catalog s) w

  abbrev second : Scope → World → World
  second s w = deleted (services s) (first s w)

  abbrev third : Scope → World → World
  third s w = deleted (borrowables s) (second s w)

  abbrev fourth : Scope → World → World
  fourth s w = deleted (admin_products s) (third s w)

  stays_third :
      (s : Scope) (k : CacheKey) (w : World)
      → cached k (third s w) ≡ none
      → cached k (deleted (admin_stock s) (fourth s w)) ≡ none
  stays_third s k w h =
      cache_del-stays k (admin_stock s) (fourth s w)
        (cache_del-stays k (admin_products s) (third s w) h)

  stays_first :
      (s : Scope) (k : CacheKey) (w : World)
      → cached k (first s w) ≡ none
      → cached k (third s w) ≡ none
  stays_first s k w h =
      cache_del-stays k (borrowables s) (second s w) (cache_del-stays k (services s) (first s w) h)

  -- After `invalidatePropertyCache`, a view of the scope about which Redis answers is no longer
  -- cached.
  pub invalidate_property_cache_lem :
      (s : Scope) (k : CacheKey) (w : World)
      → ViewOf s k
      → env.redis_up k ≡ true
      → cached k (invalidate_property_cache env s w).1 ≡ none
  unfolding invalidate_property_cache
  invalidate_property_cache_lem s k w of_catalog up =
      stays_third s k w (stays_first s k w (cache_del-gone k w up))
  invalidate_property_cache_lem s k w of_services up =
      stays_third s k w
        (cache_del-stays k (borrowables s) (second s w) (cache_del-gone k (first s w) up))
  invalidate_property_cache_lem s k w of_borrowables up =
      stays_third s k w (cache_del-gone k (second s w) up)
  invalidate_property_cache_lem s k w of_products up =
      cache_del-stays k (admin_stock s) (fourth s w) (cache_del-gone k (third s w) up)
  invalidate_property_cache_lem s k w of_stock up = cache_del-gone k (fourth s w) up
