-- ===== src/Core/Libraries.antt =====
-- What crates/semantic-engine-core takes from outside the repository: IEEE doubles, the Unicode
-- tables of `unicode-normalization` and of the standard library, and the metrics of `strsim`.
use semantic_engine.Common.{ℕ, Text, Bool, true, false, ◌≡◌, ◌&&◌}

pub record Libraries : Type 1 where
  pub F64 : Type 0
  pub zero_score : F64
  pub one_score : F64
  -- `left <= right`, `left < right`, `left == right`, `left - right` and `f64::max`
  pub le : F64 → F64 → Bool
  pub lt : F64 → F64 → Bool
  pub eq : F64 → F64 → Bool
  pub sub : F64 → F64 → F64
  pub max_score : F64 → F64 → F64
  -- `left.total_cmp(&right)` is not `Greater`
  pub total_le : F64 → F64 → Bool
  pub nfkd : Text → Text
  pub is_combining_mark : ℕ → Bool
  pub to_lowercase : ℕ → Text
  pub is_alphanumeric : ℕ → Bool
  pub is_whitespace : ℕ → Bool
  pub normalized_damerau_levenshtein : Text → Text → F64
  pub jaro_winkler : Text → Text → F64

-- `(0.0..=1.0).contains(&value)`
unfoldable pub in_unit : (lib : Libraries) → lib.F64 → Bool
in_unit lib value = lib.le lib.zero_score value && lib.le value lib.one_score

-- `total_cmp` is a total order, which agrees with `<=` and with subtraction between 0 and 1, and the
-- metrics of `strsim` lie there.
pub record ScoreLaws (lib : Libraries) : Type 0 where
  pub total : (a b : lib.F64) → lib.total_le a b ≡ false → lib.total_le b a ≡ true
  pub trans :
      (a b c : lib.F64)
      → lib.total_le a b ≡ true
      → lib.total_le b c ≡ true
      → lib.total_le a c ≡ true
  pub le_mono :
      (x a b : lib.F64)
      → in_unit lib a ≡ true
      → in_unit lib b ≡ true
      → lib.total_le a b ≡ true
      → lib.le x a ≡ true
      → lib.le x b ≡ true
  pub sub_mono :
      (s a b margin : lib.F64)
      → in_unit lib s ≡ true
      → in_unit lib a ≡ true
      → in_unit lib b ≡ true
      → lib.total_le a b ≡ true
      → lib.lt (lib.sub s a) margin ≡ true
      → lib.lt (lib.sub s b) margin ≡ true
  pub zero_unit : in_unit lib lib.zero_score ≡ true
  pub one_unit : in_unit lib lib.one_score ≡ true
  pub edit_unit : (a b : Text) → in_unit lib (lib.normalized_damerau_levenshtein a b) ≡ true
  pub jaro_unit : (a b : Text) → in_unit lib (lib.jaro_winkler a b) ≡ true
  pub max_unit :
      (a b : lib.F64)
      → in_unit lib a ≡ true
      → in_unit lib b ≡ true
      → in_unit lib (lib.max_score a b) ≡ true

-- White space is not alphanumeric, and U+0020 is white space.
pub record HasSpaces (lib : Libraries) : Type 0 where
  pub alphanumeric_solid : (c : ℕ) → lib.is_alphanumeric c ≡ true → lib.is_whitespace c ≡ false
  pub space_white : lib.is_whitespace 0x20 ≡ true
