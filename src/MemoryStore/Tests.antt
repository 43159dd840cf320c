-- ===== src/MemoryStore/Tests.antt =====
-- Tests of the model of crates/semantic-engine-memory-store, and its theorems at concrete inputs.
use semantic_engine.Common.{
  ℕ, Text, text_of, none, some, List, [], ◌∷◌, ◌&&◌, if◌then◌else◌, ltb, is_empty, All,
  to_ascii_lowercase, ◌≡◌, ◌≢◌, ◌≤◌, refl, arith, Text-discrete, ℕ_discrete,
}
use semantic_engine.Common.Results.{ok, ◌>>=◌}
use semantic_engine.Common.Machine.{io_ok}
use semantic_engine.Core.Normalize.{normalize_expression}
use semantic_engine.Core.Samples.{sample}
use semantic_engine.MemoryStore.Types.{MemoryPolicy, active, revoked, MemoryEntry, Table}
use semantic_engine.MemoryStore.Rows.{count_where, entries_where}
use semantic_engine.MemoryStore.Operations.{Context, is_candidate, remember, lookup, revoke}
use semantic_engine.MemoryStore.Capacity.{live, remember-capacity}
use semantic_engine.MemoryStore.Recall.{lookup-entries, lookup-revoke}

program : Unit {0}
unfolding remember lookup revoke normalize_expression count_where entries_where is_candidate
    Text-discrete ℕ_discrete
program = tt

-- The digest of a context, and one nanosecond policy for a single entry of one second.
abbrev digest : Text
digest = text_of "aaaaaaaaaaaaaaaaaaaaaaaaaaaaaaaaaaaaaaaaaaaaaaaaaaaaaaaaaaaaaaaa"

abbrev single : MemoryPolicy
single = record { capacity = 1; ttl = 1000000000 }

abbrev at : ℕ → List ℕ → Context
at now bytes = record { io = io_ok; now_ms = now; entropy = some bytes }

abbrev bytes_of : ℕ → List ℕ
bytes_of n = n ∷ n ∷ n ∷ n ∷ n ∷ n ∷ n ∷ n ∷ n ∷ n ∷ n ∷ n ∷ n ∷ n ∷ n ∷ n ∷ []

abbrev empty : Table
empty = record { rows = []; next_row_id = 1 }

abbrev first_id : Text
first_id = text_of "01010101010101010101010101010101"

abbrev learned : MemoryEntry
learned = record {
  id = first_id;
  context_package_sha256 = digest;
  target_id = text_of "elden-ring";
  expression = text_of "Lands Between";
  normalized_expression = text_of "lands between";
  normalization_version = 1;
  source_resolution_sha256 = text_of "ff";
  created_at_ms = 500;
  last_used_at_ms = 500;
  expires_at_ms = 1500;
  use_count = 0;
  state = active;
  state_changed_at_ms = none;
}

abbrev one_row : Table
one_row = record { rows = record { row_id = 1; entry = learned } ∷ []; next_row_id = 2 }

remembers :
    remember sample single
      (at 500 (bytes_of 1))
      empty
      digest
      (text_of "elden-ring")
      (text_of "Lands Between")
      (255 ∷ [])
    ≡ ok (one_row, learned)
unfolding program
remembers = refl

recalls :
    lookup sample (at 1499 []) one_row digest (text_of "lands-between!") (text_of "elden-ring" ∷ [])
    ≡ ok (one_row, learned ∷ [])
unfolding program
recalls = refl

lapses :
    (lookup sample (at 1500 []) one_row digest (text_of "lands between") (text_of "elden-ring" ∷ [])
      >>= λ r. ok r.1)
    ≡ ok []
unfolding program
lapses = refl

remember-capacity_example : count_where live one_row.rows ≤ 1
unfolding count_where
remember-capacity_example =
    remember-capacity sample single (at 500 (bytes_of 1)) empty digest (text_of "elden-ring")
      (text_of "Lands Between") (255 ∷ []) (omega arith) (omega arith) remembers

lookup-entries_example :
    let normalized = normalize_expression sample (text_of "lands-between!") in
    learned ∷ [] ≡ (
      if is_empty normalized
      then []
      else entries_where
          (λ r.
            is_candidate (to_ascii_lowercase digest) normalized (text_of "elden-ring" ∷ []) r
            && ltb 1499 r.entry.expires_at_ms)
          one_row.rows)
lookup-entries_example =
    lookup-entries sample (at 1499 []) one_row digest (text_of "lands-between!")
      (text_of "elden-ring" ∷ []) recalls

forgets :
    (revoke (at 600 []) one_row digest first_id).1
    ≡ ok (record learned { state = revoked; state_changed_at_ms = some 600 })
unfolding program
forgets = refl

recalls_nothing :
    lookup sample
      (at 700 [])
      (revoke (at 600 []) one_row digest first_id).0
      digest
      (text_of "lands between")
      (text_of "elden-ring" ∷ [])
    ≡ ok ((revoke (at 600 []) one_row digest first_id).0, [])
unfolding program
recalls_nothing = refl

lookup-revoke_example : All (λ (x : MemoryEntry). x.id ≢ first_id) []
lookup-revoke_example =
    lookup-revoke sample (at 600 []) (at 700 []) one_row digest first_id (text_of "lands between")
      (text_of "elden-ring" ∷ []) forgets recalls_nothing
