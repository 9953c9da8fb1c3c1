-- ===== src/Outcome.antt =====
-- The result of a scanner that returns `bool` and moves its cursor `p` towards `end`.
-- A cursor is the list of the bytes that are left; on `refused` no caller looks at the cursor.
use resonantia.Prelude.{
  ap, arith, ◌≤◌, length, Bytes, ℕ, ◌<◌, ◌≡◌, refl, ◌⊎◌, inl, inr, Bool, true, false, Option, none,
  some,
}

pub data Outcome {ℓ} (A : Type ℓ) : Type ℓ where
  found : A → Outcome A
  refused : Outcome A
  -- The fuel of a loop ran out; each loop has a theorem that this does not happen.
  spent : Outcome A

infixl 5 ◌>>=◌ ◌>>◌
abbrev pub ◌>>=◌ {ℓ κ} : {A : Type ℓ} {B : Type κ} → Outcome A → (A → Outcome B) → Outcome B
found a >>= f = f a
refused >>= f = refused
spent >>= f = spent

abbrev pub ◌>>◌ {ℓ} : {B : Type ℓ} → Outcome (Unit {0}) → Outcome B → Outcome B
m >> k = m >>= λ _. k

-- `if (!b) return false;`
abbrev pub guard : Bool → Outcome (Unit {0})
guard true = found tt
guard false = refused

abbrev pub of_option {ℓ} : {A : Type ℓ} → Option A → Outcome A
of_option none = refused
of_option (some a) = found a

pub >>=_assoc {ℓ} :
    {A B C : Type ℓ} (m : Outcome A) (f : A → Outcome B) (g : B → Outcome C)
    → (m >>= λ a. f a >>= g) ≡ ((m >>= f) >>= g)
>>=_assoc (found a) f g = refl
>>=_assoc refused f g = refl
>>=_assoc spent f g = refl

pub >>=-eq-found {ℓ κ} :
    {A : Type ℓ} {B : Type κ} (m : Outcome A) (f : A → Outcome B) {b : B}
    → (m >>= f) ≡ found b
    → (a : A) × (m ≡ found a) × (f a ≡ found b)
>>=-eq-found (found a) f h = (a, refl, h)
>>=-eq-found refused f h = cc
>>=-eq-found spent f h = cc

pub >>=-eq-spent {ℓ κ} :
    {A : Type ℓ} {B : Type κ} (m : Outcome A) (f : A → Outcome B)
    → (m >>= f) ≡ spent
    → (m ≡ spent) ⊎ ((a : A) × (m ≡ found a) × (f a ≡ spent))
>>=-eq-spent (found a) f h = inr (a, refl, h)
>>=-eq-spent refused f h = cc
>>=-eq-spent spent f h = inl refl

pub of_option-eq_found {ℓ} :
    {A : Type ℓ} (o : Option A) {a : A} → of_option o ≡ found a → o ≡ some a
of_option-eq_found none h = cc
of_option-eq_found (some b) h = cc

-- The scanner ends, and where it succeeds it leaves fewer than `n` bytes.
abbrev pub Ends {ℓ} : {A : Type ℓ} → (A → ℕ) → ℕ → Outcome A → Type 0
Ends size n (found a) = size a < n
Ends size n refused = Unit
Ends size n spent = ⊥

pub Ends-bind {ℓ κ} :
    {A : Type ℓ} {B : Type κ} (size : A → ℕ) (n : ℕ) (size' : B → ℕ) (n' : ℕ) (m : Outcome A)
    (f : A → Outcome B)
    → Ends size n m
    → ((a : A) → size a < n → Ends size' n' (f a))
    → Ends size' n' (m >>= f)
Ends-bind size n size' n' (found a) f h k = k a h
Ends-bind size n size' n' refused f h k = tt
Ends-bind size n size' n' spent f h k = absurd h

-- The bytes that a scanner with a value leaves.
abbrev pub left {ℓ} : {A : Type ℓ} → A × Bytes → ℕ
left r = length r.1

pub Ends-mono {ℓ} :
    {A : Type ℓ} (size : A → ℕ) (n n' : ℕ) (o : Outcome A) → Ends size n o → n ≤ n' → Ends size n' o
Ends-mono size n n' (found a) h k = omega arith
Ends-mono size n n' refused h k = tt
Ends-mono size n n' spent h k = h

-- A test in front of the rest.
pub Ends-guard {ℓ} :
    {B : Type ℓ} (size : B → ℕ) (n : ℕ) (b : Bool) (o : Outcome B)
    → (b ≡ true → Ends size n o)
    → Ends size n (guard b >> o)
Ends-guard size n true o h = h refl
Ends-guard size n false o h = tt

pub Ends-of_option {ℓ κ} :
    {A : Type ℓ} {B : Type κ} (size : B → ℕ) (n : ℕ) (o : Option A) (f : A → Outcome B)
    → ((a : A) → Ends size n (f a))
    → Ends size n (of_option o >>= f)
Ends-of_option size n none f h = tt
Ends-of_option size n (some a) f h = h a

-- A successful scan of which `Ends` is known.
pub Ends-found {ℓ} :
    {A : Type ℓ} (size : A → ℕ) (n : ℕ) (o : Outcome A) {a : A}
    → Ends size n o
    → o ≡ found a
    → size a < n
Ends-found size n (found a) h e =
    let e' = ap (λ o. elim o [ found b ↦ size b | _ ↦ 0 ]) e in omega arith
Ends-found size n refused h e = cc
Ends-found size n spent h e = absurd h

pub guard-eq-found : (b : Bool) {u : Unit {0}} → guard b ≡ found u → b ≡ true
guard-eq-found true h = refl
guard-eq-found false h = cc
