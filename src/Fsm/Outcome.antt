-- ===== src/Fsm/Outcome.antt =====
-- How a step of the elaboration ends: with a result, with a `FiringFSM::ModelingError`, at a failed
-- assertion, or, in the model alone, without the fuel that its loop needs.
use systemoc_syste_mo_c.Common.{◌≡◌, ◌≢◌, refl, Bool, true, false, Option, none, some}

-- The errors that the source throws, each named for its message.
pub data ModelingError : Type 0 where
  no_initial_state : ModelingError
  several_initial_states : ModelingError
  initial_state_not_on_top : ModelingError
  inter_partition_transition : ModelingError
  not_one_source_state : ModelingError
  no_target_state : ModelingError
  target_with_conditions : ModelingError
  junction_without_transition : ModelingError

pub data Outcome {ℓ} (A : Type ℓ) : Type ℓ where
  ok : A → Outcome A
  modeling_error : ModelingError → Outcome A
  assertion_failed : Outcome A
  out_of_fuel : Outcome A

-- The next step of the elaboration, if the one before had a result.
module _ {ℓ κ} {S : Type ℓ} {T : Type κ} where
  infixl 5 ◌>>=◌
  abbrev pub ◌>>=◌ : Outcome S → (S → Outcome T) → Outcome T
  modeling_error thrown >>= next = modeling_error thrown
  assertion_failed >>= next = assertion_failed
  out_of_fuel >>= next = out_of_fuel
  ok result >>= next = next result

-- `assert(b)`
abbrev pub check : Bool → Outcome (Unit {0})
check true = ok tt
check false = assertion_failed

-- `if (!b) throw e`
abbrev pub demand : ModelingError → Bool → Outcome (Unit {0})
demand e true = ok tt
demand e false = modeling_error e

infixl 5 ◌>>◌
abbrev pub ◌>>◌ {κ} : {T : Type κ} → Outcome (Unit {0}) → Outcome T → Outcome T
test >> next = test >>= λ passed. next

-- A pointer that is not null, or a lookup that must succeed.
abbrev pub deref {ℓ} : {A : Type ℓ} → Option A → Outcome A
deref none = assertion_failed
deref (some a) = ok a

-- What a chain with a result went through.
module _ {ℓ κ} {S : Type ℓ} {T : Type κ} where
  pub >>=-eq-ok :
      (step : Outcome S) (next : S → Outcome T) {t : T}
      → (step >>= next) ≡ ok t
      → (s : S) × (step ≡ ok s) × (next s ≡ ok t)
  >>=-eq-ok (modeling_error thrown) next e = cc
  >>=-eq-ok assertion_failed next e = cc
  >>=-eq-ok out_of_fuel next e = cc
  >>=-eq-ok (ok s) next e = (s, refl, e)

pub check-eq-ok : {u : Unit {0}} (b : Bool) → check b ≡ ok u → b ≡ true
check-eq-ok true h = refl
check-eq-ok false h = cc

pub deref-eq-ok {ℓ} : {A : Type ℓ} {a : A} (m : Option A) → deref m ≡ ok a → m ≡ some a
deref-eq-ok none h = cc
deref-eq-ok (some b) h = cc

pub >>=-ends {ℓ κ} :
    {A : Type ℓ} {B : Type κ} (m : Outcome A) (f : A → Outcome B)
    → m ≢ out_of_fuel
    → ((a : A) → m ≡ ok a → f a ≢ out_of_fuel)
    → (m >>= f) ≢ out_of_fuel
>>=-ends (ok a) f h k = k a refl
>>=-ends (modeling_error e) f h k = λ q. cc
>>=-ends assertion_failed f h k = λ q. cc
>>=-ends out_of_fuel f h k = absurd (h refl)
