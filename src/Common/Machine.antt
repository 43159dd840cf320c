-- ===== src/Common/Machine.antt =====
-- Machine integers, the clock, and what the database engine may answer.
use Prim.Native.Nat.{ℕ, ◌+◌, min}
use mathlib.Core.Option.{Option, none, some}
use semantic_engine.Common.Tests.{ltb, if◌then◌else◌}
use semantic_engine.Common.Texts.{Text}
use semantic_engine.Common.Results.{Result, ok, err}

abbrev pub u64_max : ℕ
u64_max = 0xffffffffffffffff

abbrev pub i64_max : ℕ
i64_max = 0x7fffffffffffffff

-- `saturating_add` of `u64`.
abbrev pub saturating_add : ℕ → ℕ → ℕ
saturating_add a b = min (a + b) u64_max

-- `i64::try_from` of a `u64`, with the error of the caller.
abbrev pub to_i64_or {μ} : {E : Type μ} → E → ℕ → Result E ℕ
to_i64_or e value = if ltb i64_max value then err e else ok value

-- What the engine answers to each statement of an operation, by its number in the operation:
-- `none` if it ran, or the message of its error (I/O, a busy file, a full disk).
abbrev pub Io : Type 0
Io = ℕ → Option Text

abbrev pub io_ok : Io
io_ok _ = none

-- The `?` after a statement.
abbrev pub statement {μ} : {E : Type μ} → (Text → E) → Option Text → Result E (Unit {0})
statement database none = ok tt
statement database (some message) = err (database message)

-- A reading of the system clock: milliseconds since the Unix epoch, or a time before it.
pub data Clock : Type 0 where
  millis : ℕ → Clock
  before_epoch : Clock
