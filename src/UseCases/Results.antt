-- ===== src/UseCases/Results.antt =====
-- crates/core/src/application_error.rs and ports/repositories.rs: results of application code, and
-- values with their version.
use video_captioner_r.Prelude.{
  refl, ◌≡◌, Option, none, some, DomainError, Result, err, ok, panic, ℕ,
}
use video_captioner_r.Contracts.{VcError}

-- An `Invalid` error is kept as its cause, of a type `F` that each use case has.
pub data ApplicationError (F : Type 0) : Type 0 where
  domain : DomainError → ApplicationError F
  adapter : VcError → ApplicationError F
  operation_cancelled : ApplicationError F
  state_persistence : (primary state : VcError) → ApplicationError F
  invalid : F → ApplicationError F

pub data AppResult {ℓ} (F : Type 0) (A : Type ℓ) : Type ℓ where
  panics : AppResult F A
  fails : ApplicationError F → AppResult F A
  gives : A → AppResult F A

infixl 5 ◌>>=◌
abbrev pub ◌>>=◌ {ℓ κ} :
    {F : Type 0} {A : Type ℓ} {B : Type κ} → AppResult F A → (A → AppResult F B) → AppResult F B
panics >>= next = panics
fails fault >>= next = fails fault
gives value >>= next = next value

-- `aggregate.method()?` where the method changes the aggregate.
abbrev pub changed {ℓ κ} :
    {F : Type 0} {S : Type ℓ} {A : Type κ} → S × Result A → AppResult F (S × A)
changed (s, ok a) = gives (s, a)
changed (s, err e) = fails (domain e)
changed (s, panic) = panics

abbrev pub ok_or {ℓ} : {F : Type 0} {A : Type ℓ} → F → Option A → AppResult F A
ok_or why none = fails (invalid why)
ok_or why (some a) = gives a

pub record Versioned {ℓ} (A : Type ℓ) : Type ℓ where
  pub value : A
  pub version : ℕ

pub >>=-eq-gives {ℓ κ} :
    {F : Type 0} {A : Type ℓ} {B : Type κ} (m : AppResult F A) (f : A → AppResult F B) {b : B}
    → (m >>= f) ≡ gives b
    → (a : A) × (m ≡ gives a) × (f a ≡ gives b)
>>=-eq-gives panics f h = cc
>>=-eq-gives (fails why) f h = cc
>>=-eq-gives (gives a) f h = (a, refl, h)

pub ok_or-eq-gives {ℓ} :
    {F : Type 0} {A : Type ℓ} (why : F) (o : Option A) {a : A} → ok_or why o ≡ gives a → o ≡ some a
ok_or-eq-gives why none h = cc
ok_or-eq-gives why (some a) h = cc

pub changed-eq-gives {ℓ κ} :
    {F : Type 0} {S : Type ℓ} {A : Type κ} (r : S × Result A) {a : S × A}
    → changed {F = F} r ≡ gives a
    → r ≡ (a.0, ok a.1)
changed-eq-gives (s, ok x) h = cc
changed-eq-gives (s, err e) h = cc
changed-eq-gives (s, panic) h = cc
