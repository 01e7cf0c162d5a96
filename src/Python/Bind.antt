-- ===== src/Python/Bind.antt =====
-- The sequence of two statements that may raise, kept shut, with the rule for what it returns.
use llm_mt5_agent.Prelude.{◌≡◌, refl, String, Bool, true, false}
use llm_mt5_agent.Python.Errors.{ExceptionClass, Result, ok, raise, raise_if}

infixl 5 ◌>>=◌ ◌>>◌
unfoldable pub ◌>>=◌ : {A B : Type 0} → Result A → (A → Result B) → Result B
raise problem >>= next = raise problem
ok value >>= next = next value

abbrev pub ◌>>◌ : {B : Type 0} → Result (Unit {0}) → Result B → Result B
first >> second = first >>= λ _. second

-- What holds of whatever is returned; nothing is said of an exception.
abbrev pub Returns : {A : Type 0} → (A → Type 0) → Result A → Type 0
Returns P (ok a) = P a
Returns P (raise e) = Unit

pub Returns-bind :
    {A B : Type 0} (P : B → Type 0) (m : Result A) (f : A → Result B)
    → ((a : A) → m ≡ ok a → Returns P (f a))
    → Returns P (m >>= f)
unfolding ◌>>=◌
Returns-bind P (ok a) f h = h a refl
Returns-bind P (raise e) f h = tt

pub Returns-raise_if :
    {B : Type 0} (P : B → Type 0) (b : Bool) (text : String) (m : Result B)
    → (b ≡ false → Returns P m)
    → Returns P (raise_if b text >> m)
unfolding ◌>>=◌
Returns-raise_if P true text m h = tt
Returns-raise_if P false text m h = h refl

pub bind-ok : {A B : Type 0} (m : Result A) (f : A → Result B) (a : A) → m ≡ ok a → (m >>= f) ≡ f a
unfolding ◌>>=◌
bind-ok m f a h = rw h refl

-- Something is returned, and the predicate holds of it.
abbrev pub Yields : {A : Type 0} → (A → Type 0) → Result A → Type 0
Yields P (ok a) = P a
Yields P (raise e) = ⊥

pub Yields-bind :
    {A B : Type 0} (Q : A → Type 0) (P : B → Type 0) (m : Result A) (f : A → Result B)
    → Yields Q m
    → ((a : A) → Q a → Yields P (f a))
    → Yields P (m >>= f)
unfolding ◌>>=◌
Yields-bind Q P (ok a) f h k = k a h
Yields-bind Q P (raise e) f h k = absurd h

pub Yields-map :
    {A : Type 0} (P Q : A → Type 0) (m : Result A) → ((a : A) → P a → Q a) → Yields P m → Yields Q m
Yields-map P Q (ok a) k h = k a h
Yields-map P Q (raise e) k h = absurd h

-- What is returned has `P`, and what is raised is of a class that has `E`.
abbrev pub Ensures : {A : Type 0} → (A → Type 0) → (ExceptionClass → Type 0) → Result A → Type 0
Ensures P E (ok a) = P a
Ensures P E (raise e) = E e.class

pub Ensures-bind :
    {A B : Type 0} (Q : A → Type 0) (P : B → Type 0) (E : ExceptionClass → Type 0) (m : Result A)
    (f : A → Result B)
    → Ensures Q E m
    → ((a : A) → Q a → Ensures P E (f a))
    → Ensures P E (m >>= f)
unfolding ◌>>=◌
Ensures-bind Q P E (ok a) f h k = k a h
Ensures-bind Q P E (raise e) f h k = h

pub Ensures-map :
    {A : Type 0} (P Q : A → Type 0) (E D : ExceptionClass → Type 0) (m : Result A)
    → ((a : A) → P a → Q a)
    → ((c : ExceptionClass) → E c → D c)
    → Ensures P E m
    → Ensures Q D m
Ensures-map P Q E D (ok a) k j h = k a h
Ensures-map P Q E D (raise e) k j h = j e.class h
