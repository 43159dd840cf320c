-- ===== src/Core/Samples.antt =====
-- A concrete instance of what crates/semantic-engine-core takes from outside, and sample inputs.
-- Scores are per cent, letters are those of ASCII, and two texts are as near as their common prefix.
use semantic_engine.Common.{
  ℕ, suc, Text, text_of, false, [], ◌∷◌, if◌then◌else◌, ltb, leb, ◌==◌, is_ascii_alphanumeric,
  ascii_lower, ◌-◌, ◌*◌, min, max, refl, arith,
}
use semantic_engine.Core.Libraries.{Libraries, ScoreLaws, HasSpaces, in_unit}
use semantic_engine.Core.Types.{AnswerTarget, ValidationPolicy, Round, Submission}

abbrev pub common_prefix : Text → Text → ℕ
common_prefix [] b = 0
common_prefix (x ∷ a) [] = 0
common_prefix (x ∷ a) (y ∷ b) = let rest = suc (common_prefix a b) in if x == y then rest else 0

abbrev pub nearness : Text → Text → ℕ
nearness a b = min 100 (10 * common_prefix a b)

abbrev pub sample : Libraries
sample = record {
  F64 = ℕ;
  zero_score = 0;
  one_score = 100;
  le = leb;
  lt = ltb;
  eq = λ a b. a == b;
  sub = λ a b. a - b;
  max_score = max;
  total_le = leb;
  nfkd = λ s. s;
  is_combining_mark = λ c. false;
  to_lowercase = λ c. ascii_lower c ∷ [];
  is_alphanumeric = is_ascii_alphanumeric;
  is_whitespace = λ c. c == 0x20;
  normalized_damerau_levenshtein = nearness;
  jaro_winkler = nearness;
}

pub sample-ScoreLaws : ScoreLaws sample
unfolding in_unit
sample-ScoreLaws = record {
  total = λ a b h. ground arith;
  trans = λ a b c h k. ground arith;
  le_mono = λ x a b ha hb h k. ground arith;
  sub_mono = λ s a b m hs ha hb h k. ground arith;
  zero_unit = refl;
  one_unit = refl;
  edit_unit = λ a b. ground arith;
  jaro_unit = λ a b. ground arith;
  max_unit = λ a b h k. ground arith;
}

pub sample-HasSpaces : HasSpaces sample
sample-HasSpaces = record { alphanumeric_solid = λ c h. ground arith; space_white = refl }

abbrev pub elden_ring : AnswerTarget
elden_ring = record {
  id = text_of "elden-ring";
  canonical = text_of "Elden Ring";
  aliases = text_of "ER" ∷ [];
}

abbrev pub hollow_knight : AnswerTarget
hollow_knight = record {
  id = text_of "hollow-knight";
  canonical = text_of "Hollow Knight";
  aliases = [];
}

abbrev pub sample_policy : ValidationPolicy ℕ
sample_policy = record { accept_threshold = 60; review_threshold = 40; ambiguity_margin = 5 }

abbrev pub sample_round : Round ℕ
sample_round = record {
  id = text_of "round-1";
  targets = elden_ring ∷ hollow_knight ∷ [];
  policy = sample_policy;
}

abbrev pub submitted : Text → Submission
submitted text = record {
  message_id = text_of "msg-1";
  participant_id = text_of "viewer-7";
  source_sequence = 1;
  text = text;
}
