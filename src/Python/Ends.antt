-- ===== src/Python/Ends.antt =====
-- How a statement ends, as records that proof search can build: what it returns and what it raises.
use llm_mt5_agent.Python.Errors.{ExceptionClass, Result, ok}
use llm_mt5_agent.Python.Bind.{◌>>=◌, Ensures, Ensures-bind, Ensures-map}

-- A statement that returns with `P` and raises with `E`.
pub record Ends {A : Type 0} (P : A → Type 0) (E : ExceptionClass → Type 0) (m : Result A)
    : Type 0 where
  pub ends : Ensures P E m

-- It says nothing of what it returns.
pub record Settles {A : Type 0} (E : ExceptionClass → Type 0) (m : Result A) : Type 0 where
  pub settles : Ensures (λ a. Unit {0}) E m

pub bind-Ends :
    {A B : Type 0} {P : B → Type 0} {E : ExceptionClass → Type 0} {m : Result A} {f : A → Result B}
    → Settles E m
    → ((a : A) → Ends P E (f a))
    → Ends P E (m >>= f)
bind-Ends {P} {E} {m} {f} h k = record {
  ends = Ensures-bind (λ a. Unit {0}) P E m f h.settles (λ a _. (k a).ends);
}

-- The same, where something is known of what the first statement returns.
pub known-Ends :
    {A B : Type 0} {Q : A → Type 0} {P : B → Type 0} {E : ExceptionClass → Type 0} {m : Result A}
    {f : A → Result B}
    → Ends Q E m
    → ((a : A) → Q a → Ends P E (f a))
    → Ends P E (m >>= f)
known-Ends {Q} {P} {E} {m} {f} h k = record {
  ends = Ensures-bind Q P E m f h.ends (λ a q. (k a q).ends);
}

pub bind-Settles :
    {A B : Type 0} {E : ExceptionClass → Type 0} {m : Result A} {f : A → Result B}
    → Settles E m
    → ((a : A) → Settles E (f a))
    → Settles E (m >>= f)
bind-Settles {E} {m} {f} h k = record {
  settles = Ensures-bind (λ a. Unit {0}) (λ b. Unit {0}) E m f h.settles (λ a _. (k a).settles);
}

pub ok-Ends : {A : Type 0} {E : ExceptionClass → Type 0} {a : A} → Ends (λ x. Unit {0}) E (ok a)
ok-Ends = record { ends = tt }

pub map-Ends :
    {A : Type 0} {P Q : A → Type 0} {E D : ExceptionClass → Type 0} {m : Result A}
    → ((a : A) → P a → Q a)
    → ((k : ExceptionClass) → E k → D k)
    → Ends P E m
    → Ends Q D m
map-Ends {P} {Q} {E} {D} {m} k w h = record { ends = Ensures-map P Q E D m k w h.ends }

pub map-Settles :
    {A : Type 0} {E D : ExceptionClass → Type 0} {m : Result A}
    → ((k : ExceptionClass) → E k → D k)
    → Settles E m
    → Settles D m
map-Settles {E} {D} {m} w h = record {
  settles = Ensures-map (λ a. Unit {0}) (λ a. Unit {0}) E D m (λ a u. u) w h.settles;
}
