-- ===== src/Python/Obeys.antt =====
-- What a statement with a state guarantees: it keeps a predicate on the state, and what it returns or
-- raises is of a kind.
use llm_mt5_agent.Prelude.{if◌then◌else◌, ◌≡◌, refl, Bool, true, false}
use llm_mt5_agent.Python.Step.{Step, pure, lift, handled, catch, continue, ◌>>=◌}
use llm_mt5_agent.Python.Errors.{ExceptionClass, Exception, Result, ok, raise}
use llm_mt5_agent.Python.Ends.{Ends}
use llm_mt5_agent.Python.Bind.{Ensures, Ensures-map}

pub record Obeys {S A : Type 0} (P : S → Type 0) (V : A → Type 0) (E : ExceptionClass → Type 0)
    (m : Step S A) : Type 0 where
  pub obeys : (s : S) → P s → P (m s).1 × Ensures V E (m s).0

module _ {S A B : Type 0} {P : S → Type 0} {V : A → Type 0} {W : B → Type 0}
    {E : ExceptionClass → Type 0} where
  continue-obeys :
      (f : A → Step S B)
      → ((a : A) → V a → Obeys P W E (f a))
      → (x : Result A × S) → P x.1 × Ensures V E x.0
      → P (continue x f).1 × Ensures W E (continue x f).0
  unfolding continue
  continue-obeys f k (ok a, s) (p, v) = (k a v).obeys s p
  continue-obeys f k (raise e, s) (p, h) = (p, h)

  then-obeys :
      (m : Step S A) (f : A → Step S B)
      → Obeys P V E m
      → ((a : A) → V a → Obeys P W E (f a))
      → (s : S) → P s
      → P ((m >>= f) s).1 × Ensures W E ((m >>= f) s).0
  unfolding ◌>>=◌
  then-obeys m f h k s p = continue-obeys f k (m s) (h.obeys s p)

  pub bind-Obeys :
      {m : Step S A} {f : A → Step S B}
      → Obeys P V E m
      → ((a : A) → V a → Obeys P W E (f a))
      → Obeys P W E (m >>= f)
  bind-Obeys {m} {f} h k = record { obeys = then-obeys m f h k }

module _ {S A : Type 0} {P : S → Type 0} {V : A → Type 0} {E : ExceptionClass → Type 0} where
  pub lift-Obeys : {r : Result A} → Ends V E r → Obeys P V E (lift r)
  lift-Obeys h = record { obeys = λ s p. (p, h.ends) }

  pub pure-Obeys : {a : A} → V a → Obeys P V E (pure a)
  pure-Obeys v = record { obeys = λ s p. (p, v) }

  handled-obeys :
      (D : ExceptionClass → Type 0) (handler : Exception → Step S A)
      → ((e : Exception) → D e.class → Obeys P V E (handler e))
      → (x : Result A × S) → P x.1 × Ensures V D x.0
      → P (handled x handler).1 × Ensures V E (handled x handler).0
  unfolding handled
  handled-obeys D handler k (ok a, s) (p, v) = (p, v)
  handled-obeys D handler k (raise e, s) (p, h) = (k e h).obeys s p

  catch-obeys :
      (D : ExceptionClass → Type 0) (m : Step S A) (handler : Exception → Step S A)
      → Obeys P V D m
      → ((e : Exception) → D e.class → Obeys P V E (handler e))
      → (s : S) → P s
      → P (catch m handler s).1 × Ensures V E (catch m handler s).0
  unfolding catch
  catch-obeys D m handler h k s p = handled-obeys D handler k (m s) (h.obeys s p)

  pub catch-Obeys :
      {D : ExceptionClass → Type 0} {m : Step S A} {handler : Exception → Step S A}
      → Obeys P V D m
      → ((e : Exception) → D e.class → Obeys P V E (handler e))
      → Obeys P V E (catch m handler)
  catch-Obeys {D} {m} {handler} h k = record { obeys = catch-obeys D m handler h k }

  -- Each branch may use what the test says.
  pub if-Obeys :
      {m n : Step S A} (b : Bool)
      → (b ≡ true → Obeys P V E m)
      → (b ≡ false → Obeys P V E n)
      → Obeys P V E (if b then m else n)
  if-Obeys true h k = h refl
  if-Obeys false h k = k refl

  pub widen-Obeys :
      {U : A → Type 0} {D : ExceptionClass → Type 0} {m : Step S A}
      → ((a : A) → U a → V a)
      → ((k : ExceptionClass) → D k → E k)
      → Obeys P U D m
      → Obeys P V E m
  widen-Obeys {U} {D} u w h = record {
    obeys = λ s p. ((h.obeys s p).0, Ensures-map U V D E _ u w (h.obeys s p).1);
  }
