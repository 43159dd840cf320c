-- ===== src/Core/Fuzzy/Ranking.antt =====
-- The ranking of `validate_fuzzy` of crates/semantic-engine-core/src/lib.rs, and what an accepted
-- score says of every other target.
use mathlib.Core.List.{Perm}
use mathlib.Core.List.Perm
use semantic_engine.Common.{
  Text, Bool, true, false, Option, some, List, [], ◌∷◌, map, ◌&&◌, All, Any, Any-map, All-map,
  length, refl, ltb, ◌≡◌, ◌≤◌, arith, Bool-cases, inl, inr, subst,
}
use semantic_engine.Core.Libraries.{Libraries, ScoreLaws, in_unit}
use semantic_engine.Core.Types.{AnswerTarget, ValidationPolicy, Round, Submission, Decision}
use semantic_engine.Core.Normalize.{fuzzy_score}
use semantic_engine.Core.Fuzzy.{
  Candidate, expressions, ranks_le, max_from, scored, best_candidate, insert, sort, candidates,
  close_runner_up, fuzzy_verdict, validate_fuzzy,
}

module _ (lib : Libraries) where
  open lib use {F64, le, lt, sub, total_le}

  -- The score lies between 0 and 1.
  abbrev pub InUnit : Candidate F64 → Type 0
  InUnit c = in_unit lib c.score ≡ true

  -- The candidate reaches the review threshold and lies within the margin of the score.
  abbrev pub is_close : ValidationPolicy F64 → F64 → Candidate F64 → Bool
  is_close policy score c =
      le policy.review_threshold c.score && lt (sub score c.score) policy.ambiguity_margin

  insert-All {κ} :
      (P : Candidate F64 → Type κ) (c : Candidate F64) (cs : List (Candidate F64))
      → P c
      → All P cs
      → All P (insert lib c cs)
  unfolding insert
  insert-All P c [] p h = (p, tt)
  insert-All P c (d ∷ cs) p h = elim (Bool-cases (ranks_le lib d c)) [
    | inl e ↦ rw e (p, (h.0, h.1))
    | inr e ↦ rw e (h.0, insert-All P c cs p h.1)
  ]

  pub sort-All {κ} :
      (P : Candidate F64 → Type κ) (cs : List (Candidate F64)) → All P cs → All P (sort lib cs)
  unfolding sort
  sort-All P [] h = tt
  sort-All P (c ∷ cs) h = insert-All P c (sort lib cs) h.0 (sort-All P cs h.1)

  insert-perm : (c : Candidate F64) (cs : List (Candidate F64)) → Perm (insert lib c cs) (c ∷ cs)
  unfolding insert
  insert-perm c [] = Perm.refl (c ∷ [])
  insert-perm c (d ∷ cs) = elim (Bool-cases (ranks_le lib d c)) [
    | inl e ↦ rw e (Perm.refl (c ∷ d ∷ cs))
    | inr e ↦ rw e (Perm.trans (Perm.cons d (insert-perm c cs)) (Perm.swap c d cs))
  ]

  sort-perm : (cs : List (Candidate F64)) → Perm (sort lib cs) cs
  unfolding sort
  sort-perm [] = Perm.refl []
  sort-perm (c ∷ cs) = Perm.trans (insert-perm c (sort lib cs)) (Perm.cons c (sort-perm cs))

  -- The list descends: each element ranks at least as high as all that follow.
  abbrev pub Descends : List (Candidate F64) → Type 0
  Descends [] = Unit
  Descends (c ∷ cs) = All (λ d. ranks_le lib d c ≡ true) cs × Descends cs

  pub max_from-All {κ} :
      (P : Candidate F64 → Type κ) (best : Candidate F64) (cs : List (Candidate F64))
      → P best
      → All P cs
      → P (max_from lib best cs)
  unfolding max_from
  max_from-All P best [] p h = p
  max_from-All P best (c ∷ cs) p h = elim (Bool-cases (ranks_le lib best c)) [
    | inl e ↦ rw e (max_from-All P c cs h.0 h.1)
    | inr e ↦ rw e (max_from-All P best cs p h.1)
  ]

  -- The maximum is one of the candidates.
  max_from-Any :
      (best : Candidate F64) (cs : List (Candidate F64))
      → Any (λ c. max_from lib best cs ≡ c) (best ∷ cs)
  unfolding max_from
  max_from-Any best [] = inl refl
  max_from-Any best (c ∷ cs) =
      let IsThere : Candidate F64 → Type 0 = λ top. Any (λ x. top ≡ x) (best ∷ c ∷ cs) in
      elim (Bool-cases (ranks_le lib best c)) [
        | inl e ↦
            let is_c : max_from lib c cs ≡ max_from lib best (c ∷ cs) = rw (e, max_from) refl in
            subst IsThere is_c (inr (max_from-Any c cs))
        | inr e ↦
            let is_best : max_from lib best cs ≡ max_from lib best (c ∷ cs) =
              rw (e, max_from) refl in
            subst IsThere is_best
              (elim (max_from-Any best cs) [ inl first ↦ inl first | inr later ↦ inr (inr later) ])
      ]

  -- The candidate ranks at least as high as those of the list.
  abbrev pub Tops : Candidate F64 → List (Candidate F64) → Type 0
  Tops top cs = All (λ c. ranks_le lib c top ≡ true) cs

  -- What an accepted fuzzy verdict says of the targets' candidates.
  pub record Wins (policy : ValidationPolicy F64) (cs : List (Candidate F64)) (id : Option Text)
      (score : F64) : Type 0 where
    pub top : Candidate F64
    pub others : List (Candidate F64)
    pub ranking : Perm (top ∷ others) cs
    pub names_top : id ≡ some top.target.id
    pub has_top_score : score ≡ top.score
    pub reaches : le policy.accept_threshold top.score ≡ true
    pub greatest : Tops top others
    pub apart : All (λ c. is_close policy top.score c ≡ false) others

  module _ (laws : ScoreLaws lib) where
    insert-Descends :
        (c : Candidate F64) (cs : List (Candidate F64)) → Descends cs → Descends (insert lib c cs)
    unfolding insert
    insert-Descends c [] h = (tt, tt)
    insert-Descends c (d ∷ cs) h = elim (Bool-cases (ranks_le lib d c)) [
      | inl e ↦
          rw e ((e, All-map cs (λ x below. laws.trans x.score d.score c.score below e) h.0), h)
      | inr e ↦ rw e (
        insert-All (λ x. ranks_le lib x d ≡ true) c cs (laws.total d.score c.score e) h.0,
        insert-Descends c cs h.1,
      )
    ]

    sort-Descends : (cs : List (Candidate F64)) → Descends (sort lib cs)
    unfolding sort
    sort-Descends [] = tt
    sort-Descends (c ∷ cs) = insert-Descends c (sort lib cs) (sort-Descends cs)

    ranks_refl : (c : Candidate F64) → ranks_le lib c c ≡ true
    ranks_refl c = elim (Bool-cases (ranks_le lib c c)) [
      | inl e ↦ e
      | inr e ↦ laws.total c.score c.score e
    ]

    max_from-greatest :
        (best : Candidate F64) (cs : List (Candidate F64)) → Tops (max_from lib best cs) (best ∷ cs)
    unfolding max_from
    max_from-greatest best [] = (ranks_refl best, tt)
    max_from-greatest best (c ∷ cs) = elim (Bool-cases (ranks_le lib best c)) [
      | inl e ↦
          let (up, rest) = max_from-greatest c cs in
          subst (λ b. Tops (max_from lib b cs) (best ∷ c ∷ cs)) (rw e)
            (laws.trans best.score c.score (max_from lib c cs).score e up, (up, rest))
      | inr e ↦
          let (up, rest) = max_from-greatest best cs in
          subst (λ b. Tops (max_from lib b cs) (best ∷ c ∷ cs)) (rw e)
            (
              up,
              (
                laws.trans c.score best.score (max_from lib best cs).score
                    (laws.total best.score c.score e) up,
                rest,
              ),
            )
    ]

    All-scored :
        (submission : Text) (target : AnswerTarget) (top : Candidate F64) (es : List Text)
        → All (λ c. ranks_le lib c top ≡ true) (map (scored lib submission target) es)
        → All (λ e. ranks_le lib (scored lib submission target e) top ≡ true) es
    All-scored submission target top [] h = tt
    All-scored submission target top (e ∷ es) h = (h.0, All-scored submission target top es h.1)

    -- The candidate of a target carries that target with the score of one of its expressions, and no
    -- expression of the target ranks above it.
    pub best_candidate-greatest :
        (submission : Text) (target : AnswerTarget)
        → (All
            (λ e.
              ranks_le lib (scored lib submission target e) (best_candidate lib submission target)
              ≡ true)
            (expressions target))
          × Any
              (λ e. best_candidate lib submission target ≡ scored lib submission target e)
              (expressions target)
    unfolding best_candidate expressions
    best_candidate-greatest submission target =
        let top = best_candidate lib submission target in
        let (up, rest) =
          max_from-greatest (scored lib submission target target.canonical)
            (map (scored lib submission target) target.aliases) in
        (
          (up, All-scored submission target top target.aliases rest),
          Any-map (scored lib submission target) (λ c. top ≡ c) (expressions target)
              (max_from-Any (scored lib submission target target.canonical)
                (map (scored lib submission target) target.aliases)),
        )

    fuzzy_score-in_unit : (a b : Text) → in_unit lib (fuzzy_score lib a b) ≡ true
    unfolding fuzzy_score
    fuzzy_score-in_unit a b = ground (
      arith,
      laws.zero_unit,
      laws.edit_unit a b,
      laws.jaro_unit a b,
      laws.max_unit (lib.normalized_damerau_levenshtein a b) (lib.jaro_winkler a b),
    )

    scored-InUnit :
        (submission : Text) (target : AnswerTarget) (es : List Text)
        → All InUnit (map (scored lib submission target) es)
    unfolding scored
    scored-InUnit submission target [] = tt
    scored-InUnit submission target (e ∷ es) =
        (fuzzy_score-in_unit submission _, scored-InUnit submission target es)

    best_candidates-InUnit :
        (submission : Text) (ts : List AnswerTarget)
        → All InUnit (map (best_candidate lib submission) ts)
    unfolding best_candidate
    best_candidates-InUnit submission [] = tt
    best_candidates-InUnit submission (t ∷ ts) =
        let h = scored-InUnit submission t (t.canonical ∷ t.aliases) in
        (max_from-All InUnit _ _ h.0 h.1, best_candidates-InUnit submission ts)

    close_mono :
        (policy : ValidationPolicy F64) (top c d : Candidate F64)
        → InUnit top
        → InUnit c
        → InUnit d
        → ranks_le lib c d ≡ true
        → is_close policy top.score d ≡ false
        → is_close policy top.score c ≡ false
    close_mono policy top c d ht hc hd le_cd apart = ground (
      arith,
      laws.le_mono policy.review_threshold c.score d.score hc hd le_cd,
      laws.sub_mono top.score c.score d.score policy.ambiguity_margin ht hc hd le_cd,
    )

    All-apart :
        (policy : ValidationPolicy F64) (top d : Candidate F64) (cs : List (Candidate F64))
        → InUnit top
        → InUnit d
        → is_close policy top.score d ≡ false
        → All InUnit cs
        → All (λ c. ranks_le lib c d ≡ true) cs
        → All (λ c. is_close policy top.score c ≡ false) cs
    All-apart policy top d [] ht hd apart us bs = tt
    All-apart policy top d (c ∷ cs) ht hd apart us bs = (
      close_mono policy top c d ht us.0 hd bs.0 apart,
      All-apart policy top d cs ht hd apart us.1 bs.1,
    )

    others_apart :
        (policy : ValidationPolicy F64) (top : Candidate F64) (others : List (Candidate F64))
        → InUnit top
        → All InUnit others
        → Descends others
        → close_runner_up lib policy top.score others ≡ false
        → All (λ c. is_close policy top.score c ≡ false) others
    unfolding close_runner_up
    others_apart policy top [] ht us ds h = tt
    others_apart policy top (d ∷ cs) ht us ds h = (h, All-apart policy top d cs ht us.0 h us.1 ds.0)

    accepts_top :
        (round : Round F64) (submission : Submission) (top : Candidate F64)
        (others : List (Candidate F64))
        → (fuzzy_verdict lib round submission (top ∷ others)).decision ≡ Decision.accepted
        → (close_runner_up lib round.policy top.score others ≡ false)
          × (le round.policy.accept_threshold top.score ≡ true)
          × ((fuzzy_verdict lib round submission (top ∷ others)).target_id ≡ some top.target.id)
          × ((fuzzy_verdict lib round submission (top ∷ others)).score ≡ top.score)
    unfolding fuzzy_verdict
    accepts_top round submission top others h = ground arith

    fuzzy_verdict-Wins :
        (round : Round F64) (submission : Submission) (ranked cs : List (Candidate F64))
        → Perm ranked cs
        → All InUnit ranked
        → Descends ranked
        → (fuzzy_verdict lib round submission ranked).decision ≡ Decision.accepted
        → let v = fuzzy_verdict lib round submission ranked in
          Wins round.policy cs v.target_id v.score
    fuzzy_verdict-Wins round submission [] cs p us ds h = unfold fuzzy_verdict in cc
    fuzzy_verdict-Wins round submission (top ∷ others) cs p us ds h =
        let (sole, reaches, named, score) = accepts_top round submission top others h in
        record {
          top = top;
          others = others;
          ranking = p;
          names_top = named;
          has_top_score = score;
          reaches = reaches;
          greatest = ds.0;
          apart = others_apart round.policy top others us.0 us.1 ds.1 sole;
        }

    -- A fuzzy match is accepted only for the candidate with the greatest score of all targets,
    -- which reaches the accept threshold, from at least four characters; no other target's
    -- candidate both reaches the review threshold and comes within the ambiguity margin.
    pub validate_fuzzy-Wins :
        (round : Round F64) (submission : Submission) (compacted : Text)
        → (validate_fuzzy lib round submission compacted).decision ≡ Decision.accepted
        → let v = validate_fuzzy lib round submission compacted in
          (4 ≤ length compacted)
          × Wins round.policy (map (best_candidate lib compacted) round.targets) v.target_id v.score
    unfolding validate_fuzzy candidates
    validate_fuzzy-Wins round submission compacted h =
        let cs = map (best_candidate lib compacted) round.targets in
        elim (Bool-cases (ltb (length compacted) 4)) [
          | inl short ↦ absurd (ground arith)
          | inr long ↦ (
            ground arith,
            rw long (
                fuzzy_verdict-Wins round submission (sort lib cs) cs (sort-perm cs)
                  (sort-All InUnit cs (best_candidates-InUnit compacted round.targets))
                  (sort-Descends cs) (rw long at h)),
          )
        ]
