-- ===== src/Tracer/Outcomes.antt =====
-- What a method of the Tracer comes to. A failed assert, a failed `throw_on` and the reading of a null or dangling
-- pointer end the program: `throw_on` calls `std::terminate` (include/util/exception.h).
use columbo.Base.{◌≡◌, refl, Bool, true, false, Option, none, some}

pub data Result {ℓ} (A : Type ℓ) : Type ℓ where
  returns : A → Result A
  aborts : Result A
  exhausted : Result A

infixl 5 ◌>>=◌ ◌>>◌
abbrev pub ◌>>=◌ {ℓ κ} : {A : Type ℓ} {B : Type κ} → Result A → (A → Result B) → Result B
returns a >>= f = f a
aborts >>= f = aborts
exhausted >>= f = exhausted

abbrev pub ◌>>◌ {ℓ} : {B : Type ℓ} → Result (Unit {0}) → Result B → Result B
m >> k = m >>= λ _. k

-- `throw_on_false`, and `assert`.
abbrev pub check : Bool → Result (Unit {0})
check true = returns tt
check false = aborts

-- `throw_if_empty`, and the reading through a pointer.
abbrev pub deref {ℓ} : {A : Type ℓ} → Option A → Result A
deref none = aborts
deref (some a) = returns a

-- What holds of the value that is returned, where one is; fuel does not run out.
abbrev pub Ends {ℓ} : {A : Type ℓ} → (A → Type 0) → Result A → Type 0
Ends P (returns a) = P a
Ends P aborts = Unit {0}
Ends P exhausted = ⊥

pub Ends->>= {ℓ κ} :
    {A : Type ℓ} {B : Type κ} (P : A → Type 0) (Q : B → Type 0) (m : Result A) (f : A → Result B)
    → Ends P m
    → ((a : A) → P a → Ends Q (f a))
    → Ends Q (m >>= f)
Ends->>= P Q (returns a) f p k = k a p
Ends->>= P Q aborts f p k = tt
Ends->>= P Q exhausted f p k = p

pub Ends-check {ℓ} :
    {A : Type ℓ} (Q : A → Type 0) (b : Bool) (m : Result A)
    → (b ≡ true → Ends Q m)
    → Ends Q (check b >> m)
Ends-check Q true m k = k refl
Ends-check Q false m k = tt

pub Ends-deref {ℓ κ} :
    {A : Type ℓ} {B : Type κ} (Q : B → Type 0) (o : Option A) (f : A → Result B)
    → ((a : A) → o ≡ some a → Ends Q (f a))
    → Ends Q (deref o >>= f)
Ends-deref Q none f k = tt
Ends-deref Q (some a) f k = k a refl

-- A result that is no running out of fuel.
abbrev pub IsFinite {ℓ} : {A : Type ℓ} → Result A → Type 0
IsFinite m = Ends (λ a. Unit {0}) m

-- A value that is returned, with the equation that says so.
pub Ends-returned {ℓ κ} :
    {A : Type ℓ} {B : Type κ} (Q : B → Type 0) (m : Result A) (f : A → Result B)
    → IsFinite m
    → ((a : A) → m ≡ returns a → Ends Q (f a))
    → Ends Q (m >>= f)
Ends-returned Q (returns a) f n k = k a refl
Ends-returned Q aborts f n k = tt
Ends-returned Q exhausted f n k = n

pub Ends-map {ℓ} :
    {A : Type ℓ} (P : A → Type 0) (Q : A → Type 0) (m : Result A)
    → Ends P m
    → ((a : A) → P a → Q a)
    → Ends Q m
Ends-map P Q (returns a) p k = k a p
Ends-map P Q aborts p k = tt
Ends-map P Q exhausted p k = p

check-returns :
    {A : Type 0} (b : Bool) (j i : A) → (check b >> returns j) ≡ returns i → returns j ≡ returns i
check-returns true j i e = e
check-returns false j i e = absurd (cc e)

-- A value that passed its test.
pub returned_value :
    {A : Type 0} (r : Result A) (test : A → Bool) (i : A)
    → (r >>= λ j. check (test j) >> returns j) ≡ returns i
    → r ≡ returns i
returned_value (returns j) test i e = check-returns (test j) j i e
returned_value aborts test i e = absurd (cc e)
returned_value exhausted test i e = absurd (cc e)

pub Ends-both {ℓ} :
    {A : Type ℓ} (P : A → Type 0) (Q : A → Type 0) (m : Result A)
    → Ends P m
    → Ends Q m
    → Ends (λ a. P a × Q a) m
Ends-both P Q (returns a) p q = (p, q)
Ends-both P Q aborts p q = tt
Ends-both P Q exhausted p q = p
