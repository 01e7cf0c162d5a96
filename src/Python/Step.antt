-- ===== src/Python/Step.antt =====
-- Statements that may change a state and may raise: what was changed before an exception stays
-- changed. The sequence and `try` are kept shut, with the rules for what they leave.
use llm_mt5_agent.Prelude.{◌≡◌, refl, Bool, true, false, if◌then◌else◌}
use llm_mt5_agent.Python.Errors.{Exception, Result, ok, raise}

abbrev pub Step : Type 0 → Type 0 → Type 0
Step S A = S → Result A × S

module _ {S A : Type 0} where
  abbrev pub pure : A → Step S A
  pure a s = (ok a, s)

  abbrev pub lift : Result A → Step S A
  lift r s = (r, s)

  abbrev pub read : (S → A) → Step S A
  read f s = (ok (f s), s)

  abbrev pub read_or_raise : (S → Result A) → Step S A
  read_or_raise f s = (f s, s)

  -- The handler runs on what the exception left.
  unfoldable pub handled : Result A × S → (Exception → Step S A) → Result A × S
  handled (ok a, s) handler = (ok a, s)
  handled (raise e, s) handler = handler e s

  unfoldable pub catch : Step S A → (Exception → Step S A) → Step S A
  unfolding handled
  catch m handler s = handled (m s) handler

abbrev pub modify : {S : Type 0} → (S → S) → Step S (Unit {0})
modify f s = (ok tt, f s)

module _ {S A B : Type 0} where
  unfoldable pub continue : Result A × S → (A → Step S B) → Result B × S
  continue (ok a, s) f = f a s
  continue (raise e, s) f = (raise e, s)

infixl 5 ◌>>=◌ ◌>>◌
unfoldable pub ◌>>=◌ : {S A B : Type 0} → Step S A → (A → Step S B) → Step S B
unfolding continue
◌>>=◌ m f s = continue (m s) f

abbrev pub ◌>>◌ : {S B : Type 0} → Step S (Unit {0}) → Step S B → Step S B
first >> second = first >>= λ _. second

-- A statement of a part of the state, run inside the whole.
abbrev pub within : {S W A : Type 0} → (S → W) → (S → W → S) → Step W A → Step S A
within get put m s = let (r, w) = m (get s) in (r, put s w)

-- A statement leads from one predicate to another, whether it returns or raises.
pub record Keeps {S A : Type 0} (P Q : S → Type 0) (m : Step S A) : Type 0 where
  pub leads : (s : S) → P s → Q (m s).1

module _ {S A B : Type 0} where
  continue-leads :
      (Q R : S → Type 0) (f : A → Step S B)
      → ((s : S) → Q s → R s)
      → ((a : A) → Keeps Q R (f a))
      → (x : Result A × S) → Q x.1
      → R (continue x f).1
  unfolding continue
  continue-leads Q R f w k (ok a, s) h = (k a).leads s h
  continue-leads Q R f w k (raise e, s) h = w s h

  then-leads :
      (P Q R : S → Type 0) (m : Step S A) (f : A → Step S B)
      → ((s : S) → Q s → R s)
      → Keeps P Q m
      → ((a : A) → Keeps Q R (f a))
      → (s : S) → P s
      → R ((m >>= f) s).1
  unfolding ◌>>=◌
  then-leads P Q R m f w h k s p = continue-leads Q R f w k (m s) (h.leads s p)

  -- Two statements, where the middle predicate is enough if the first one raises.
  pub then-Keeps :
      {P Q R : S → Type 0} {m : Step S A} {f : A → Step S B}
      → ((s : S) → Q s → R s)
      → Keeps P Q m
      → ((a : A) → Keeps Q R (f a))
      → Keeps P R (m >>= f)
  then-Keeps {P} {Q} {R} {m} {f} w h k = record { leads = then-leads P Q R m f w h k }

  known-leads :
      (T : A → Type 0) (Q R : S → Type 0) (f : A → Step S B)
      → ((s : S) → Q s → R s)
      → ((a : A) → T a → Keeps Q R (f a))
      → (x : Result A × S) → Q x.1
      → ((a : A) → x.0 ≡ ok a → T a)
      → R (continue x f).1
  unfolding continue
  known-leads T Q R f w k (ok a, s) h t = (k a (t a refl)).leads s h
  known-leads T Q R f w k (raise e, s) h t = w s h

  known-leads_bind :
      (T : A → Type 0) (P Q R : S → Type 0) (m : Step S A) (f : A → Step S B)
      → ((s : S) → Q s → R s)
      → Keeps P Q m
      → ((s : S) → P s → (a : A) → (m s).0 ≡ ok a → T a)
      → ((a : A) → T a → Keeps Q R (f a))
      → (s : S) → P s
      → R ((m >>= f) s).1
  unfolding ◌>>=◌
  known-leads_bind T P Q R m f w h t k s p = known-leads T Q R f w k (m s) (h.leads s p) (t s p)

  -- The same, where something is known of what the first statement returns.
  pub known-Keeps :
      (T : A → Type 0) {P Q R : S → Type 0} {m : Step S A} {f : A → Step S B}
      → ((s : S) → Q s → R s)
      → Keeps P Q m
      → ((s : S) → P s → (a : A) → (m s).0 ≡ ok a → T a)
      → ((a : A) → T a → Keeps Q R (f a))
      → Keeps P R (m >>= f)
  known-Keeps T {P} {Q} {R} {m} {f} w h t k = record {
    leads = known-leads_bind T P Q R m f w h t k;
  }

  -- Both statements keep one predicate.
  pub bind-Keeps :
      {P : S → Type 0} {m : Step S A} {f : A → Step S B}
      → Keeps P P m
      → ((a : A) → Keeps P P (f a))
      → Keeps P P (m >>= f)
  bind-Keeps h k = then-Keeps (λ s p. p) h k

module _ {S A : Type 0} where
  handled-leads :
      (Q : S → Type 0) (handler : Exception → Step S A)
      → ((e : Exception) → Keeps Q Q (handler e))
      → (x : Result A × S) → Q x.1
      → Q (handled x handler).1
  unfolding handled
  handled-leads Q handler k (ok a, s) h = h
  handled-leads Q handler k (raise e, s) h = (k e).leads s h

  catch-leads :
      (P Q : S → Type 0) (m : Step S A) (handler : Exception → Step S A)
      → Keeps P Q m
      → ((e : Exception) → Keeps Q Q (handler e))
      → (s : S) → P s
      → Q (catch m handler s).1
  unfolding catch
  catch-leads P Q m handler h k s p = handled-leads Q handler k (m s) (h.leads s p)

  pub catch-Keeps :
      {P Q : S → Type 0} {m : Step S A} {handler : Exception → Step S A}
      → Keeps P Q m
      → ((e : Exception) → Keeps Q Q (handler e))
      → Keeps P Q (catch m handler)
  catch-Keeps {P} {Q} {m} {handler} h k = record { leads = catch-leads P Q m handler h k }

  pub if-Keeps :
      {P Q : S → Type 0} {m n : Step S A} (b : Bool)
      → Keeps P Q m
      → Keeps P Q n
      → Keeps P Q (if b then m else n)
  if-Keeps true h k = h
  if-Keeps false h k = k

  pub weaken-Keeps :
      {P Q R : S → Type 0} {m : Step S A} → ((s : S) → Q s → R s) → Keeps P Q m → Keeps P R m
  weaken-Keeps w h = record { leads = λ s p. w _ (h.leads s p) }

  -- A statement that changes nothing.
  pub look-Keeps : {P : S → Type 0} {f : S → Result A} → Keeps P P (read_or_raise f)
  look-Keeps = record { leads = λ s p. p }

-- What holds of what a statement returns or raises and of what it leaves.
pub record Results {S A : Type 0} (P : S → Type 0) (Q : Result A → S → Type 0) (m : Step S A)
    : Type 0 where
  pub results : (s : S) → P s → Q (m s).0 (m s).1

module _ {S A B : Type 0} where
  continue-results :
      (P : S → Type 0) (Q : Result B → S → Type 0) (f : A → Step S B)
      → ((e : Exception) (s : S) → P s → Q (raise e) s)
      → ((a : A) → Results P Q (f a))
      → (x : Result A × S) → P x.1
      → Q (continue x f).0 (continue x f).1
  unfolding continue
  continue-results P Q f w k (ok a, s) h = (k a).results s h
  continue-results P Q f w k (raise e, s) h = w e s h

  bind-results :
      (P : S → Type 0) (Q : Result B → S → Type 0) (m : Step S A) (f : A → Step S B)
      → ((e : Exception) (s : S) → P s → Q (raise e) s)
      → Keeps P P m
      → ((a : A) → Results P Q (f a))
      → (s : S) → P s
      → Q ((m >>= f) s).0 ((m >>= f) s).1
  unfolding ◌>>=◌
  bind-results P Q m f w h k s p = continue-results P Q f w k (m s) (h.leads s p)

  -- A first statement that keeps the predicate, which is enough if it raises.
  pub bind-Results :
      {P : S → Type 0} {Q : Result B → S → Type 0} {m : Step S A} {f : A → Step S B}
      → ((e : Exception) (s : S) → P s → Q (raise e) s)
      → Keeps P P m
      → ((a : A) → Results P Q (f a))
      → Results P Q (m >>= f)
  bind-Results {P} {Q} {m} {f} w h k = record { results = bind-results P Q m f w h k }

module _ {S A : Type 0} where
  -- What a `try` needs of its body: its result, or enough for the handler.
  unfoldable pub OrHandled : (S → Type 0) → (Result A → S → Type 0) → Result A → S → Type 0
  OrHandled P Q (ok a) s = Q (ok a) s
  OrHandled P Q (raise e) s = P s

  handled-results :
      (P : S → Type 0) (Q : Result A → S → Type 0) (handler : Exception → Step S A)
      → ((e : Exception) → Results P Q (handler e))
      → (x : Result A × S) → OrHandled P Q x.0 x.1
      → Q (handled x handler).0 (handled x handler).1
  unfolding handled OrHandled
  handled-results P Q handler k (ok a, s) h = h
  handled-results P Q handler k (raise e, s) h = (k e).results s h

  catch-results :
      (P : S → Type 0) (Q : Result A → S → Type 0) (m : Step S A) (handler : Exception → Step S A)
      → Results P (OrHandled P Q) m
      → ((e : Exception) → Results P Q (handler e))
      → (s : S) → P s
      → Q (catch m handler s).0 (catch m handler s).1
  unfolding catch
  catch-results P Q m handler h k s p = handled-results P Q handler k (m s) (h.results s p)

  pub catch-Results :
      {P : S → Type 0} {Q : Result A → S → Type 0} {m : Step S A} {handler : Exception → Step S A}
      → Results P (OrHandled P Q) m
      → ((e : Exception) → Results P Q (handler e))
      → Results P Q (catch m handler)
  catch-Results {P} {Q} {m} {handler} h k = record { results = catch-results P Q m handler h k }

  pub if-Results :
      {P : S → Type 0} {Q : Result A → S → Type 0} {m n : Step S A} (b : Bool)
      → Results P Q m
      → Results P Q n
      → Results P Q (if b then m else n)
  if-Results true h k = h
  if-Results false h k = k
