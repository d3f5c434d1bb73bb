-- ===== src/Prelude/Results.antt =====
-- crates/domain/src/error.rs: the errors of the domain, and its `Result`.
-- A message with numbers in it is kept as the values that it is rendered from. `panic` is the
-- outcome of Rust code that indexes out of range.
use Prim.Native.Nat.{ℕ}
use Prim.Native.String.{String}
use mathlib.Core.Path.{◌≡◌, refl, ap}

pub data TimestampFault : Type 0 where
  word_reversed : ℕ → ℕ → TimestampFault
  words_not_ordered : ℕ → TimestampFault
  missing_word_range : ℕ → TimestampFault
  invalid_word_range : ℕ → TimestampFault
  overlaps_previous : ℕ → TimestampFault
  missing_imported_start : ℕ → TimestampFault
  missing_imported_end : ℕ → TimestampFault
  end_before_start : ℕ → TimestampFault

pub data MemberId : Type 0 where
  text_id : String → MemberId
  cue_id : ℕ → MemberId

pub data DomainError : Type 0 where
  invalid_argument : String → DomainError
  timestamp_invalid : TimestampFault → DomainError
  illegal_transition : String → String → String → DomainError
  stale_revision : ℕ → ℕ → DomainError
  batch_profile_mismatch : DomainError
  already_terminal : String → DomainError
  member_not_found : String → MemberId → DomainError
  lease_conflict : String → DomainError
  lease_required : DomainError

-- The outcome of a call in Rust.
pub data Result {ℓ} (A : Type ℓ) : Type ℓ where
  panic : Result A
  err : DomainError → Result A
  ok : A → Result A

-- The operator `?`, with what follows it.
infixl 5 ◌>>=◌
abbrev pub ◌>>=◌ {ℓ κ} :
    {A : Type ℓ} {B : Type κ} (call : Result A) (next : A → Result B) → Result B
panic >>= next = panic
err fault >>= next = err fault
ok value >>= next = next value

-- The same where the value is not used.
infixl 5 ◌>>◌
abbrev pub ◌>>◌ {ℓ} : {B : Type ℓ} (call : Result (Unit {0})) (after : Result B) → Result B
call >> after = call >>= λ done. after

pub >>=-eq-ok {ℓ κ} :
    {A : Type ℓ} {B : Type κ} (call : Result A) (next : A → Result B) {answer : B}
    → (call >>= next) ≡ ok answer
    → (value : A) × (call ≡ ok value) × (next value ≡ ok answer)
>>=-eq-ok panic next same = cc
>>=-eq-ok (err fault) next same = cc
>>=-eq-ok (ok value) next same = (value, refl, same)

pub ok-injective {ℓ} : {A : Type ℓ} {a b : A} → ok a ≡ ok b → a ≡ b
ok-injective {a = a} e = ap (λ r. elim r [ ok x ↦ x | err _ ↦ a | panic ↦ a ]) e
