-- ===== src/Prelude/Results.antt =====
-- How a run of the program can stop, and the chain of steps that may stop.
use mathlib.Core.Path.{◌≡◌, refl, ap, subst}
use mathlib.Core.Logic.{◌⊎◌, inl, inr}
use mathlib.Core.Bool.{Bool, true, false}
use mathlib.Core.Option.{Option, none, some}

-- The calls of `err` and `errx`, which end the process, a failed `assert`, and `fault`: an access
-- outside an object, through a null pointer or to an uninitialised value, or a division by zero.
-- `out_of_fuel` is no outcome of the C code: a loop of the model used up the rounds given to it.
pub data Failure : Type 0 where
  short_read no_varint bad_flag_value : Failure
  short_write short_append cannot_open cannot_truncate cannot_stat : Failure
  unknown_utxo invalid_total : Failure
  duplicate_block_file no_genesis cannot_create no_home no_blocks_dir cannot_read : Failure
  unknown_end_hash unknown_start_hash no_block_end no_block_start : Failure
  bad_format : Failure
  usage bad_option : Failure
  assert_failed fault out_of_fuel : Failure

-- `err` ends the run.
pub data Result {ℓ} (A : Type ℓ) : Type ℓ where
  err : Failure → Result A
  ok : A → Result A

-- One step and then the next, with what the first gives.
infixl 5 ◌>>=◌
abbrev pub ◌>>=◌ {ℓ κ} :
    {A : Type ℓ} {B : Type κ} (step : Result A) (next : A → Result B) → Result B
err stop >>= next = err stop
ok given >>= next = next given

pub >>=-ok {ℓ κ} :
    {A : Type ℓ} {B : Type κ} {m : Result A} {a : A} (f : A → Result B) → m ≡ ok a → (m >>= f) ≡ f a
>>=-ok f e = ap (λ r. r >>= f) e

-- What a test or a load gives: a test that does not hold, or nothing there, is the failure.
abbrev pub guard : (holds : Bool) (otherwise : Failure) → Result (Unit {0})
guard false otherwise = err otherwise
guard true otherwise = ok tt

abbrev pub or_fail {ℓ} : {A : Type ℓ} → Option A → (otherwise : Failure) → Result A
or_fail none otherwise = err otherwise
or_fail (some there) otherwise = ok there

-- The next step where the first gives nothing.
infixl 5 ◌>>◌
abbrev pub ◌>>◌ {κ} : {B : Type κ} (step : Result (Unit {0})) (next : Result B) → Result B
step >> next = step >>= λ done. next

-- A result, if there is one, has the property.
unfoldable pub Holds {ℓ κ} : {A : Type ℓ} → (A → Type κ) → Result A → Type κ
Holds P (ok a) = P a
Holds P (err e) = Unit {κ}

pub Holds-ok {ℓ κ} : {A : Type ℓ} (P : A → Type κ) (a : A) → P a → Holds P (ok a)
unfolding Holds
Holds-ok P a h = h

pub Holds-err {ℓ κ} : {A : Type ℓ} (P : A → Type κ) (e : Failure) → Holds P (err e)
unfolding Holds
Holds-err P e = tt

pub Holds-then {ℓ κ ℓ' κ'} :
    {A : Type ℓ} {B : Type κ} (Q : A → Type ℓ') (P : B → Type κ') (m : Result A) (f : A → Result B)
    → Holds Q m
    → ((a : A) → Q a → Holds P (f a))
    → Holds P (m >>= f)
unfolding Holds
Holds-then Q P (ok a) f q k = k a q
Holds-then Q P (err e) f q k = tt

pub Holds->>= {ℓ κ κ'} :
    {A : Type ℓ} {B : Type κ} (P : B → Type κ') (m : Result A) (f : A → Result B)
    → ((a : A) → Holds P (f a))
    → Holds P (m >>= f)
unfolding Holds
Holds->>= P (ok a) f k = k a
Holds->>= P (err e) f k = tt

pub Holds_at {ℓ κ} :
    {A : Type ℓ} (P : A → Type κ) (r : Result A) (a : A) → Holds P r → r ≡ ok a → P a
unfolding Holds
Holds_at P r a h e = subst (Holds P) e h

pub Holds-mono {ℓ κ κ'} :
    {A : Type ℓ} (Q : A → Type κ) (P : A → Type κ') (r : Result A)
    → ((a : A) → Q a → P a)
    → Holds Q r
    → Holds P r
unfolding Holds
Holds-mono Q P (ok a) f h = f a h
Holds-mono Q P (err e) f h = tt

pub Result-cases {ℓ} :
    {A : Type ℓ} (r : Result A) → ((e : Failure) × (r ≡ err e)) ⊎ ((a : A) × (r ≡ ok a))
Result-cases (err e) = inl (e, refl)
Result-cases (ok a) = inr (a, refl)

-- Steps that go on alike from what the first may give.
pub >>=-congr {ℓ κ ℓ'} :
    {A : Type ℓ} {B : Type κ} (Q : A → Type ℓ') (m : Result A) (f g : A → Result B)
    → Holds Q m
    → ((a : A) → Q a → f a ≡ g a)
    → (m >>= f) ≡ (m >>= g)
unfolding Holds
>>=-congr Q (ok a) f g q h = h a q
>>=-congr Q (err e) f g q h = refl

pub Holds-any {ℓ} : {A : Type ℓ} (r : Result A) → Holds (λ (a : A). Unit {0}) r
unfolding Holds
Holds-any (ok a) = tt
Holds-any (err e) = tt
