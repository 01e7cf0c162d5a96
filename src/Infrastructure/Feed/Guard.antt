-- ===== src/Infrastructure/Feed/Guard.antt =====
-- mt5_agent/infrastructure/mt5: the check before every read, for a world whose calls keep a predicate
-- `P` and raise only exceptions of `E`.
use llm_mt5_agent.Prelude.{String, ◌≡◌, refl, subst, Bool, Option, none, some}
use llm_mt5_agent.Python.Step.{Step, lift}
use llm_mt5_agent.Python.Errors.{
  ExceptionClass, mt5_not_connected_error, mt5_market_data_error, mt5_symbol_not_found_error,
  Result, ok, raise,
}
use llm_mt5_agent.Python.Ends.{Ends}
use llm_mt5_agent.Python.Obeys.{Obeys, bind-Obeys, lift-Obeys, pure-Obeys, if-Obeys}
use llm_mt5_agent.Python.Bind.{Ensures, Ensures-map}
use llm_mt5_agent.Infrastructure.Mappers.Reading.{DataError}
use llm_mt5_agent.Infrastructure.Feed.{Feed, fail, on_world, linked, held, module_of, ensure_ready}

-- What a read may raise.
pub data FeedError (E : ExceptionClass → Type 0) (k : ExceptionClass) : Type 0 where
  from_outside : E k → FeedError E k
  not_connected : k ≡ mt5_not_connected_error → FeedError E k
  market_data : k ≡ mt5_market_data_error → FeedError E k
  unknown_symbol : k ≡ mt5_symbol_not_found_error → FeedError E k
  bad_payload : DataError k → FeedError E k

-- The module that an adapter holds is one of `IsModule`, and `P` holds of the world.
pub record Guarded {M W : Type 0} (IsModule : M → Type 0) (P : W → Type 0) (s : Feed M W)
    : Type 0 where
  pub module_held : (m : M) → s.mt5 ≡ some m → IsModule m
  pub world_kept : P s.world

-- The outside of an adapter: the connection that it asks and the module that it loads.
pub record IsOutside {M W : Type 0} (IsModule : M → Type 0) (P : W → Type 0)
    (E : ExceptionClass → Type 0) (connection : Option (Step W Bool)) (load : Result M)
    : Type 0 where
  pub asks : (ask : Step W Bool) → connection ≡ some ask → Obeys P (λ b. Unit {0}) E ask
  pub loads : Ensures IsModule E load

same_some : {A : Type 0} {a b : A} → some a ≡ some b → a ≡ b
same_some h = cc

pub fail-Obeys :
    {S A : Type 0} {Q : S → Type 0} {V : A → Type 0} {D : ExceptionClass → Type 0}
    {class : ExceptionClass} {message : String}
    → D class
    → Obeys Q V D (fail {S = S} {A = A} class message)
fail-Obeys h = record { obeys = λ s q. (q, h) }

-- A record that a mapper gives.
pub mapped-Obeys :
    {S A : Type 0} {E : ExceptionClass → Type 0} {V : A → Type 0} {D : S → Type 0} {r : Result A}
    → Ends V DataError r
    → Obeys D V (FeedError E) (lift r)
mapped-Obeys {E} {V} {r} h = lift-Obeys (record {
  ends = Ensures-map V V DataError (FeedError E) r (λ a v. v) (λ k x. bad_payload x) h.ends;
})

module _ {M W : Type 0} {IsModule : M → Type 0} {P : W → Type 0} {E : ExceptionClass → Type 0} where
  pub on_world-Obeys :
      {A : Type 0} {V : A → Type 0} {m : Step W A}
      → Obeys P V E m
      → Obeys (Guarded IsModule P) V (FeedError E) (on_world m)
  unfolding on_world
  on_world-Obeys {V} {m} h = record {
    obeys = λ s p. (
      record { module_held = p.module_held; world_kept = (h.obeys s.world p.world_kept).0 },
      Ensures-map V V E (FeedError E) _ (λ a v. v) (λ k e. from_outside e)
          (h.obeys s.world p.world_kept).1,
    );
  }

  linked-Obeys :
      (connection : Option (Step W Bool)) (load : Result M)
      → IsOutside IsModule P E connection load
      → Obeys (Guarded IsModule P) (λ b. Unit {0}) (FeedError E) (linked connection)
  unfolding linked
  linked-Obeys none load o = pure-Obeys tt
  linked-Obeys (some ask) load o = on_world-Obeys (o.asks ask refl)

  held-obeys :
      (connection : Option (Step W Bool)) (load : Result M)
      → IsOutside IsModule P E connection load
      → (held_ : Option M) (s : Feed M W) → s.mt5 ≡ held_
      → Guarded IsModule P s
      → Guarded IsModule P (held load held_ s).1
        × Ensures IsModule (FeedError E) (held load held_ s).0
  unfolding held
  held-obeys connection load o (some m) s e p = (p, p.module_held m e)
  held-obeys connection (ok m) o none s e p = (
    record { module_held = λ n j. subst IsModule (same_some j) o.loads; world_kept = p.world_kept },
    o.loads,
  )
  held-obeys connection (raise x) o none s e p = (p, from_outside o.loads)

  pub ensure_ready-Obeys :
      (connection : Option (Step W Bool)) (load : Result M)
      → IsOutside IsModule P E connection load
      → Obeys (Guarded IsModule P) IsModule (FeedError E) (ensure_ready connection load)
  unfolding ensure_ready module_of
  ensure_ready-Obeys connection load o = bind-Obeys (linked-Obeys connection load o) (λ connected _.
      if-Obeys connected
        (λ _. record { obeys = λ s p. held-obeys connection load o s.mt5 s refl p })
        (λ _. fail-Obeys (not_connected refl)))
