-- ===== src/Application/Health/Worst.antt =====
-- mt5_agent/application/health.py: the aggregated verdict is the worst one.
use llm_mt5_agent.Prelude.{
  if◌then◌else◌, ◌||◌, ◌≡◌, refl, ◌∙◌, ap, str_eq, str_eq_iff, Bool, true, false, List, [], ◌∷◌,
  any, map, Bool-cases, inl, inr,
}
use llm_mt5_agent.Python.Errors.{ok, raise}
use llm_mt5_agent.Python.Float.{Datetime}
use llm_mt5_agent.Application.Health.{
  HealthStatus, healthy, degraded, unhealthy, health_eq, ComponentHealth, overall, Probe,
  reported_by, run_probe, check_health,
}

-- The worse of two verdicts, and the worst of a list that is not empty.
abbrev pub worse : HealthStatus → HealthStatus → HealthStatus
worse unhealthy b = unhealthy
worse degraded unhealthy = unhealthy
worse degraded b = degraded
worse healthy b = b

abbrev pub worst : List HealthStatus → HealthStatus
worst [] = unhealthy
worst (s ∷ []) = s
worst (s ∷ t ∷ rest) = worse s (worst (t ∷ rest))

-- What a probe says of its component: an exception says that it is unhealthy.
abbrev pub verdict_of : {F : Type 0} → Probe F → HealthStatus
verdict_of (name, ok c) = c.status
verdict_of (name, raise e) = unhealthy

grade : Bool → Bool → HealthStatus
grade u g = if u then unhealthy else if g then degraded else healthy

grade-worse :
    (s : HealthStatus) (u g : Bool)
    → grade (health_eq s unhealthy || u) (health_eq s degraded || g) ≡ worse s (grade u g)
unfolding grade
grade-worse unhealthy u g = refl
grade-worse degraded true g = refl
grade-worse degraded false true = refl
grade-worse degraded false false = refl
grade-worse healthy u g = refl

worse-healthy : (s : HealthStatus) → worse s healthy ≡ s
worse-healthy unhealthy = refl
worse-healthy degraded = refl
worse-healthy healthy = refl

overall-worst :
    {F : Type 0} (cs : List (ComponentHealth F)) → overall cs ≡ worst (map (λ c. c.status) cs)
unfolding overall grade
overall-worst [] = refl
overall-worst (c ∷ []) = grade-worse c.status false false ∙ worse-healthy c.status
overall-worst (c ∷ d ∷ rest) =
    grade-worse c.status (any (λ c. health_eq c.status unhealthy) (d ∷ rest))
      (any (λ c. health_eq c.status degraded) (d ∷ rest))
    ∙ ap (worse c.status) (overall-worst (d ∷ rest))

reported-verdict : {F : Type 0} (p : Probe F) → (reported_by p.0 p.1).status ≡ verdict_of p
unfolding reported_by
reported-verdict (name, ok c) = refl
reported-verdict (name, raise e) = refl

named_component : {F : Type 0} (p : Probe F) → (run_probe p).name ≡ p.0
unfolding run_probe
named_component p = elim (Bool-cases (str_eq (reported_by p.0 p.1).name p.0)) [
  | inl e ↦ rw e ((str_eq_iff _ _).0 e)
  | inr e ↦ rw e refl
]

verdict-kept : {F : Type 0} (p : Probe F) → (run_probe p).status ≡ verdict_of p
unfolding run_probe
verdict-kept p = elim (Bool-cases (str_eq (reported_by p.0 p.1).name p.0)) [
  | inl e ↦ rw e (reported-verdict p)
  | inr e ↦ rw e (reported-verdict p)
]

pub map-run_probe :
    {F : Type 0} (probes : List (Probe F))
    → (map (λ c. c.name) (map run_probe probes) ≡ map (λ p. p.0) probes)
      × (map (λ c. c.status) (map run_probe probes) ≡ map verdict_of probes)
map-run_probe [] = (refl, refl)
map-run_probe (p ∷ rest) =
    let (names, verdicts) = map-run_probe rest in
    (rw (named_component p, names) refl, rw (verdict-kept p, verdicts) refl)

-- A health check has one component for each probe, in the order of the probes and under the
-- probe's own name, and its verdict is the worst of what the probes say, an exception counting as
-- UNHEALTHY; without probes it is UNHEALTHY.
pub check_health-worst :
    {F : Type 0} (probes : List (Probe F)) (clock : Datetime)
    → (map (λ c. c.name) (check_health probes clock).components ≡ map (λ p. p.0) probes)
      × ((check_health probes clock).status ≡ worst (map verdict_of probes))
unfolding check_health
check_health-worst probes clock =
    let (names, verdicts) = map-run_probe probes in
    (names, overall-worst (map run_probe probes) ∙ ap worst verdicts)
