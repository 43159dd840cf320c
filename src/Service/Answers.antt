-- ===== src/Service/Answers.antt =====
-- Where an answer of crates/semantic-engine-service/src/lib.rs comes from: the validator, the
-- recognition memory or the cache.
use semantic_engine.Common.{
  ℕ, Text, Bool, true, false, none, some, List, [], ◌∷◌, not, any, find, leb, ◌=t◌, ◌<◌, ◌-◌, All,
  ◌≡◌, ◌≢◌, refl, sym, subst, ◌⊎◌, inl, inr, arith, Bool-cases, Option-cases,
}
use semantic_engine.Core.Libraries.{Libraries}
use semantic_engine.Core.Types.{Round, Submission, Decision, Validation}
use semantic_engine.Core.Validate.{validate}
use semantic_engine.MemoryStore.Types.{MemoryEntry}
use semantic_engine.Service.Types.{ServiceConfig, CacheEntry, SemanticEngineService}
use semantic_engine.Service.Externals.{Env}
use semantic_engine.Service.Cache.{elapsed, take_cached}
use semantic_engine.Service.Validate.{readdress, serve_taken, serve}
use semantic_engine.Service.Recognition.{configured_exact, memory_answer, validation_with_memory}

-- All entries name the target.
abbrev pub Agree : Text → List MemoryEntry → Type 0
Agree target = All (λ (e : MemoryEntry). e.target_id ≡ target)

any-Agree :
    (target : Text) (es : List MemoryEntry)
    → any (λ (e : MemoryEntry). not (e.target_id =t target)) es ≡ false
    → Agree target es
any-Agree target [] h = tt
any-Agree target (e ∷ es) h = (ground arith, any-Agree target es (ground arith))

Agree-any :
    (target : Text) (es : List MemoryEntry)
    → Agree target es
    → any (λ (e : MemoryEntry). not (e.target_id =t target)) es ≡ false
Agree-any target [] h = refl
Agree-any target (e ∷ es) (same, rest) = ground (arith, same, Agree-any target es rest)

module _ (lib : Libraries) (round : Round lib.F64) (submission : Submission) where
  open lib use {F64}

  -- The validator's answer stands: memory has no match, or the answer is exact, or the request is
  -- invalid.
  abbrev pub Stands : List MemoryEntry → Validation F64 × Bool → Type 0
  Stands es answer =
      (answer ≡ (validate lib round submission, false))
      × ((es ≡ [])
          ⊎ (configured_exact lib (validate lib round submission) ≡ true)
          ⊎ ((validate lib round submission).issue ≢ none))

  -- Memory answers: with the target that its matches agree on, or, if they name several, with none.
  abbrev pub Recalls : List MemoryEntry → Validation F64 → Type 0
  Recalls es v =
      (first : MemoryEntry) × (rest : List MemoryEntry) × (es ≡ first ∷ rest)
      × (((v.decision ≡ Decision.accepted)
            × (v.target_id ≡ some first.target_id)
            × Agree first.target_id es)
          ⊎ ((v.decision ≡ Decision.abstained)
              × (v.target_id ≡ none)
              × ((target : Text) → ¬ Agree target es)))

  memory_answer-Recalls :
      (first : MemoryEntry) (rest : List MemoryEntry)
      → Recalls (first ∷ rest) (memory_answer lib round submission first rest)
  unfolding memory_answer
  memory_answer-Recalls first rest =
      let names : MemoryEntry → Bool = λ e. not (e.target_id =t first.target_id) in
      (
        first,
        rest,
        refl,
        elim (Bool-cases (any names (first ∷ rest))) [
          | inl several ↦ inr (
            rw several refl,
            rw several refl,
            λ target all.
                let k =
                  Agree-any first.target_id (first ∷ rest)
                    (subst (λ t. Agree t (first ∷ rest)) (sym all.0) all) in
                ground (arith, several, k),
          )
          | inr one ↦ inl (rw one refl, rw one refl, any-Agree first.target_id (first ∷ rest) one)
        ],
      )

  -- The validator's answer stands if it is exact, if the request is invalid or if memory has no
  -- match; otherwise memory accepts the one target that all its matches name, and leaves matches
  -- that name several to the operator.
  pub validation_with_memory-Recalls :
      (es : List MemoryEntry)
      → let answer = validation_with_memory lib round submission es in
        Stands es answer
        ⊎ ((answer.1 ≡ true)
            × (configured_exact lib (validate lib round submission) ≡ false)
            × ((validate lib round submission).issue ≡ none)
            × Recalls es answer.0)
  unfolding validation_with_memory
  validation_with_memory-Recalls [] = inl (refl, inl refl)
  validation_with_memory-Recalls (first ∷ rest) =
      let configured = validate lib round submission in
      elim (Bool-cases (configured_exact lib configured)) [
        | inl exact ↦ inl (rw exact refl, inr (inl exact))
        | inr inexact ↦ elim (Option-cases configured.issue) [
          | inl valid ↦
              inr (rw (inexact, valid) (refl, refl, refl, memory_answer-Recalls first rest))
          | inr (i, wrong) ↦ inl (rw (inexact, wrong) refl, inr (inr (ground (arith, wrong))))
        ]
      ]

module _ {F : Type 0} where
  -- A cached answer of the key that is younger than the configured time to live
  abbrev pub Fresh : ℕ → List ℕ → ServiceConfig → List (CacheEntry F) → Validation F → Type 0
  Fresh now key config entries v =
      (entry : CacheEntry F) × (find (λ (e : CacheEntry F). e.key =t key) entries ≡ some entry)
      × (now - entry.inserted_at < config.cache_ttl)
      × (entry.validation ≡ v)

module _ {F A : Type 0} where
  -- An answer is the computed one, or a cached one of the same key, younger than the configured
  -- time to live, with the identity of this submission in place of its own.
  pub serve-Fresh :
      (env : Env) (key : List ℕ) (round : Round F) (submission : Submission)
      (computed : Validation F) (s : SemanticEngineService F A)
      → let v = (serve env key round submission computed s).1 in
        (v ≡ computed)
        ⊎ ((cached : Validation F) × Fresh (env.instant 0) key s.config s.cache cached
            × (v ≡ readdress round submission cached))
  unfolding serve serve_taken take_cached elapsed
  serve-Fresh env key round submission computed s =
      elim (Option-cases (find (λ (e : CacheEntry F). e.key =t key) s.cache)) [
        | inl gone ↦ inl (rw (gone, serve, serve_taken, take_cached) refl)
        | inr (entry, found) ↦
            elim (Bool-cases (leb s.config.cache_ttl (env.instant 0 - entry.inserted_at))) [
              | inl old ↦ inl (rw (found, old, serve, serve_taken, take_cached) refl)
              | inr young ↦ inr (
                entry.validation,
                (entry, found, ground (arith, young), refl),
                rw (found, young, serve, serve_taken, take_cached) refl,
              )
            ]
      ]
