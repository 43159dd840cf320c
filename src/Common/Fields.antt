-- ===== src/Common/Fields.antt =====
-- A concrete codec of lists of texts, for the instances of codecs that the source only calls: a
-- character is written as its successor and a text ends with zero.
use Prim.Native.Nat.{ℕ, zero, suc}
use mathlib.Core.Path.{◌≡◌, refl, ap, ◌∙◌}
use mathlib.Core.List.{List, [], ◌∷◌}
use semantic_engine.Common.Texts.{Text}

abbrev pub write_field : Text → Text → Text
write_field [] after = 0 ∷ after
write_field (c ∷ s) after = suc c ∷ write_field s after

abbrev pub write_fields : List Text → Text
write_fields [] = []
write_fields (s ∷ ss) = write_field s (write_fields ss)

abbrev pub push_char : ℕ → List Text → List Text
push_char c [] = []
push_char c (s ∷ ss) = (c ∷ s) ∷ ss

abbrev pub read_fields : Text → List Text
read_fields [] = []
read_fields (zero ∷ s) = [] ∷ read_fields s
read_fields (suc c ∷ s) = push_char c (read_fields s)

read_fields-write_field :
    (s after : Text) → read_fields (write_field s after) ≡ s ∷ read_fields after
read_fields-write_field [] after = refl
read_fields-write_field (c ∷ s) after = ap (push_char c) (read_fields-write_field s after)

pub read_fields-write_fields : (ss : List Text) → read_fields (write_fields ss) ≡ ss
read_fields-write_fields [] = refl
read_fields-write_fields (s ∷ ss) =
    read_fields-write_field s (write_fields ss)
    ∙ ap (λ rest. s ∷ rest) (read_fields-write_fields ss)
