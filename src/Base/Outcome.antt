-- ===== src/Base/Outcome.antt =====
-- The outcome of running Go code: a result, a run-time panic, or more rounds than the fuel.
use mathlib.Core.Path.{◌≡◌, refl, sym}
use mathlib.Core.Option.{Option, none, some}

pub data Run {ℓ} (A : Type ℓ) : Type ℓ where
  done : A → Run A
  panic : Run A
  out_of_fuel : Run A

infixl 5 ◌>>=◌ ◌>>◌
abbrev pub ◌>>=◌ {ℓ κ} : {A : Type ℓ} {B : Type κ} → Run A → (A → Run B) → Run B
done a >>= f = f a
panic >>= f = panic
out_of_fuel >>= f = out_of_fuel

abbrev pub ◌>>◌ {ℓ} : {B : Type ℓ} → Run (Unit {0}) → Run B → Run B
m >> k = m >>= λ _. k

-- An index out of range, or a nil pointer that is read through, panics.
abbrev pub deref {ℓ} : {A : Type ℓ} → Option A → Run A
deref none = panic
deref (some a) = done a

-- Steps grouped to the left are the same steps.
pub bind_steps :
    {A B C : Type 0} (f : A → Run C) (g : A → Run B) (h : B → Run C) (m : Run A)
    → ((a : A) → f a ≡ (g a >>= h))
    → (m >>= f) ≡ (m >>= g >>= h)
bind_steps f g h (done a) e = e a
bind_steps f g h panic e = refl
bind_steps f g h out_of_fuel e = refl

pub bind_assoc :
    {A B C : Type 0} (m : Run A) (f : A → Run B) (g : B → Run C)
    → ((m >>= f) >>= g) ≡ (m >>= λ a. f a >>= g)
bind_assoc m f g = sym (bind_steps (λ a. f a >>= g) f g m (λ a. refl))

-- A chain that ends has steps that end.
pub done-bind :
    {A B : Type 0} (m : Run A) (k : A → Run B) (b : B)
    → (m >>= k) ≡ done b
    → (a : A) × (m ≡ done a) × (k a ≡ done b)
done-bind (done a) k b e = (a, refl, e)
done-bind panic k b e = absurd (cc)
done-bind out_of_fuel k b e = absurd (cc)

-- Two chains agree when their rounds do, where the first step ends.
pub bind_cong :
    {A B : Type 0} (m : Run A) (f g : A → Run B)
    → ((a : A) → m ≡ done a → f a ≡ g a)
    → (m >>= f) ≡ (m >>= g)
bind_cong (done a) f g e = e a refl
bind_cong panic f g e = refl
bind_cong out_of_fuel f g e = refl
