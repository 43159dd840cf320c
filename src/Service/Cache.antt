-- ===== src/Service/Cache.antt =====
-- The cache of crates/semantic-engine-service/src/lib.rs, oldest use first. An operation gives the
-- whole service after it; `now` is its reading of the monotonic clock.
use semantic_engine.Common.{
  ℕ, suc, Option, none, some, List, [], ◌∷◌, ◌++◌, ltb, leb, ◌==◌, ◌=t◌, if◌then◌else◌, length,
  find, trim_front, ◌-◌,
}
use semantic_engine.Common.Machine.{saturating_add}
use semantic_engine.Core.Types.{Validation}
use semantic_engine.Service.Types.{CacheEntry, SemanticEngineService}

module _ {F : Type 0} where
  -- `inserted_at.elapsed()`
  unfoldable pub elapsed : ℕ → CacheEntry F → ℕ
  elapsed now entry = now - entry.inserted_at

  -- The `retain` of `prune_expired_cache`: the clock is read for each entry, from its `k`th reading on.
  unfoldable pub retain_fresh : (ℕ → ℕ) → ℕ → ℕ → List (CacheEntry F) → List (CacheEntry F)
  unfolding elapsed
  retain_fresh readings ttl k [] = []
  retain_fresh readings ttl k (entry ∷ rest) =
      let kept = retain_fresh readings ttl (suc k) rest in
      if ltb (elapsed (readings k) entry) ttl then entry ∷ kept else kept

  -- `position` and `remove`: the first entry of the key is taken out.
  unfoldable pub remove_first : List ℕ → List (CacheEntry F) → List (CacheEntry F)
  remove_first key [] = []
  remove_first key (entry ∷ rest) =
      let others = remove_first key rest in if entry.key =t key then rest else entry ∷ others

module _ {F A : Type 0} where
  unfoldable pub take_cached :
      ℕ → List ℕ → SemanticEngineService F A → SemanticEngineService F A × Option (Validation F)
  unfolding elapsed remove_first
  take_cached now key s = elim (find (λ (e : CacheEntry F). e.key =t key) s.cache) [
    | none ↦ (s, none)
    | some entry ↦
        let left = remove_first key s.cache in
        if leb s.config.cache_ttl (elapsed now entry)
        then (
          record s {
            cache = left;
            stats = record s.stats {
              cache_expirations = saturating_add s.stats.cache_expirations 1;
            };
          },
          none,
        )
        else (record s { cache = left ++ entry ∷ [] }, some entry.validation)
  ]

  unfoldable pub prune_expired_cache :
      (ℕ → ℕ) → SemanticEngineService F A → SemanticEngineService F A
  unfolding retain_fresh
  prune_expired_cache readings s =
      let kept = retain_fresh readings s.config.cache_ttl 0 s.cache in
      record s {
        cache = kept;
        stats = record s.stats {
          cache_expirations =
              saturating_add s.stats.cache_expirations (length s.cache - length kept);
        };
      }

  -- The evictions are counted one by one, each with a saturating addition of one.
  unfoldable pub insert_cache :
      ℕ → List ℕ → Validation F → SemanticEngineService F A → SemanticEngineService F A
  unfolding remove_first
  insert_cache now key validation s =
      if s.config.cache_capacity == 0
      then s
      else (let entry : CacheEntry F = record {
        key = key;
        inserted_at = now;
        validation = validation;
      } in
          let grown = remove_first key s.cache ++ entry ∷ [] in
          let kept = trim_front s.config.cache_capacity grown in
          record s {
            cache = kept;
            stats = record s.stats {
              cache_evictions = saturating_add s.stats.cache_evictions (length grown - length kept);
            };
          })
