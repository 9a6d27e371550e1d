-- ===== src/Machine.antt =====
-- How the program's code can fail: C++ faults as values, and the chain of steps that may fault.
use short_message.Prelude.{◌≡◌, refl, ◌⊎◌, inl, inr, Option, none, some}

-- What ends a run of the code that the source does not catch.
pub data Fault : Type 0 where
  -- a read or a write outside its buffer
  out_of_bounds : Fault
  -- an `assert` that fails
  aborted : Fault
  -- a loop that has not ended with the events at hand
  spinning : Fault
  -- a pointer that points at no object is used
  no_object : Fault
  -- an exception of thrift
  thrown : Fault

pub data Result {ℓ} (A : Type ℓ) : Type ℓ where
  ok : A → Result A
  fault : Fault → Result A

infixl 5 ◌>>=◌
abbrev pub ◌>>=◌ {ℓ κ} : {A : Type ℓ} {B : Type κ} → Result A → (A → Result B) → Result B
ok a >>= f = f a
fault e >>= f = fault e

abbrev pub in_bounds {ℓ} : {A : Type ℓ} → Option A → Result A
in_bounds none = fault out_of_bounds
in_bounds (some a) = ok a

pub Result-cases {ℓ} :
    {A : Type ℓ} (r : Result A) → ((a : A) × (r ≡ ok a)) ⊎ ((e : Fault) × (r ≡ fault e))
Result-cases (ok a) = inl (a, refl)
Result-cases (fault e) = inr (e, refl)

-- What holds of the value, if there is one.
abbrev pub Yields : {A : Type 0} → Result A → (A → Type 0) → Type 0
Yields (ok a) P = P a
Yields (fault e) P = Unit

pub Yields-bind :
    {A B : Type 0} (m : Result A) (f : A → Result B) (Q : A → Type 0) (P : B → Type 0)
    → Yields m Q
    → ((a : A) → Q a → Yields (f a) P)
    → Yields (m >>= f) P
Yields-bind (ok a) f Q P q h = h a q
Yields-bind (fault e) f Q P q h = tt

pub Yields-any : {A : Type 0} (m : Result A) → Yields m (λ _. Unit)
Yields-any (ok a) = tt
Yields-any (fault e) = tt

pub Yields-ok : {A : Type 0} (m : Result A) (a : A) (P : A → Type 0) → m ≡ ok a → Yields m P → P a
Yields-ok m a P e y = rw e at y

-- Two steps in a chain are one.
pub bind_assoc :
    {A B C : Type 0} (m : Result A) (f : A → Result B) (g : B → Result C)
    → (m >>= λ a. f a >>= g) ≡ ((m >>= f) >>= g)
bind_assoc (ok a) f g = refl
bind_assoc (fault e) f g = refl
