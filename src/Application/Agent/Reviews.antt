-- ===== src/Application/Agent/Reviews.antt =====
-- mt5_agent/application/agent.py: what a cycle knows when it asks the supervisor, and what it has been
-- answered then.
use llm_mt5_agent.Prelude.{String, ◌≡◌, refl, subst, Option, none, some}
use llm_mt5_agent.Python.Step.{
  Step, ◌>>=◌, Keeps, then-Keeps, known-Keeps, bind-Keeps, catch-Keeps, look-Keeps,
}
use llm_mt5_agent.Python.Errors.{ok, ok-inj}
use llm_mt5_agent.Python.Float.{Float}
use llm_mt5_agent.Domain.Market.{Timeframe}
use llm_mt5_agent.Domain.Planning.{PlannerInput, TradeProposal}
use llm_mt5_agent.Risk.Context.{RiskContext}
use llm_mt5_agent.Risk.Supervisor.{SupervisorDecision, review}
use llm_mt5_agent.Application.Agent.Parts.{Observation, observe, build_planner_input}
use llm_mt5_agent.Application.Agent.State.{
  TradingAgent, AgentState, Frame, Moment, new_frame, required_key, outside, set_state,
}
use llm_mt5_agent.Application.Agent.Stages.{
  risk_context, propose, observe_stage, plan_stage, ask_supervisor, supervise_stage,
}
use llm_mt5_agent.Application.Agent.Keeps.{
  Core, On, On-weaken, set_state-Keeps, append-Keeps, failed-Keeps, written-Keeps, outside-Keeps,
  propose-Keeps, keeping,
}
use llm_mt5_agent.Application.Agent.Seen.{
  Observed, Observed-unique, observe-Observed, IsInput, build_planner_input-IsInput, answer_of,
  Completed, with_volume-Completed, IsContext, risk_context-IsContext, Planned,
}

module _ {F W : Type 0} ⦃fl : Float F⦄ (repr : String → String) (a : TradingAgent F W)
    (s0 : AgentState F W) (symbol : String) (timeframe : Timeframe) (m : Moment) where
  -- What the agent's services answered in this cycle.
  abbrev pub Saw : Observation F → Type 0
  Saw o = Observed a.observer symbol timeframe a.candle_count m.clock s0.session.world o

  -- The decision is what the supervisor, as it was when the cycle began, answered in this cycle to
  -- what was observed in it and to what the planner proposed for that.
  pub record Reviewed (d : SupervisorDecision F) : Type 0 where
    pub observation : Observation F
    pub observed : Saw observation
    pub planned : TradeProposal F
    pub of_planner : Planned a m.clock observation planned
    pub proposal : TradeProposal F
    pub completed : Completed a.default_volume planned proposal
    pub context : RiskContext F
    pub of_observation : IsContext observation m.clock context
    pub answered : (review repr s0.supervisor proposal context none m.clock).1 ≡ ok d

  unfoldable pub ObservationOf : Option (Observation F) → Type 0
  ObservationOf none = Unit
  ObservationOf (some o) = Saw o

  unfoldable pub ProposalOf : Option (TradeProposal F) → Type 0
  ProposalOf none = Unit
  ProposalOf (some p) = (o : Observation F) × Saw o × Planned a m.clock o p

  unfoldable pub DecisionOf : Option (SupervisorDecision F) → Type 0
  DecisionOf none = Unit
  DecisionOf (some d) = Reviewed d

  -- Before the supervisor is asked; when it is; and once it was.
  pub record Fresh (c : Core F W) : Type 0 where
    pub supervisor : c.supervisor ≡ s0.supervisor
    pub ledger : c.ledger ≡ s0.ledger
    pub loaded : c.loaded ≡ s0.session.mt5
    pub sent : c.sent ≡ s0.session.sent
    pub undecided : c.decision ≡ none
    pub observed : ObservationOf c.observation
    pub planned : ProposalOf c.proposal

  pub record Ready (c : Core F W) : Type 0 where
    pub supervisor : c.supervisor ≡ s0.supervisor
    pub ledger : c.ledger ≡ s0.ledger
    pub loaded : c.loaded ≡ s0.session.mt5
    pub sent : c.sent ≡ s0.session.sent
    pub undecided : c.decision ≡ none

  pub record Undecided (c : Core F W) : Type 0 where
    pub ledger : c.ledger ≡ s0.ledger
    pub loaded : c.loaded ≡ s0.session.mt5
    pub sent : c.sent ≡ s0.session.sent
    pub undecided : c.decision ≡ none

  pub record Decided (c : Core F W) : Type 0 where
    pub ledger : c.ledger ≡ s0.ledger
    pub loaded : c.loaded ≡ s0.session.mt5
    pub sent : c.sent ≡ s0.session.sent
    pub decided : DecisionOf c.decision

  Ready-Undecided : (c : Core F W) → Ready c → Undecided c
  Ready-Undecided c h = record {
    ledger = h.ledger;
    loaded = h.loaded;
    sent = h.sent;
    undecided = h.undecided;
  }

  Undecided-Decided : (c : Core F W) → Undecided c → Decided c
  unfolding DecisionOf
  Undecided-Decided c h = record {
    ledger = h.ledger;
    loaded = h.loaded;
    sent = h.sent;
    decided = rw h.undecided tt;
  }

  Ready-Decided : (c : Core F W) → Ready c → Decided c
  Ready-Decided c h = Undecided-Decided c (Ready-Undecided c h)

  Fresh-Ready : (c : Core F W) → Fresh c → Ready c
  Fresh-Ready c h = record {
    supervisor = h.supervisor;
    ledger = h.ledger;
    loaded = h.loaded;
    sent = h.sent;
    undecided = h.undecided;
  }

  Fresh-Decided : (c : Core F W) → Fresh c → Decided c
  Fresh-Decided c h = Ready-Decided c (Fresh-Ready c h)

  -- A cycle at its start, and an observation that was made.
  abbrev pub Started : Frame F W → Type 0
  Started f = f ≡ new_frame s0

  new_frame-Fresh : On Fresh (new_frame s0)
  unfolding new_frame ObservationOf ProposalOf
  new_frame-Fresh = record {
    holds = record {
      supervisor = refl;
      ledger = refl;
      loaded = refl;
      sent = refl;
      undecided = refl;
      observed = tt;
      planned = tt;
    };
  }

  pub Started-Fresh : (f : Frame F W) → Started f → On Fresh f
  Started-Fresh f h = rw h new_frame-Fresh

  observing-Keeps : {A : Type 0} (n : Step W A) → Keeps Started (On Fresh) (outside n)
  observing-Keeps n = record {
    leads = λ f h. (outside-Keeps {P = Fresh} n).leads f (Started-Fresh f h);
  }

  observing-Saw :
      (f : Frame F W)
      → Started f
      → (o : Observation F)
      → (outside (observe a.observer symbol timeframe a.candle_count m.clock) f).0 ≡ ok o
      → Saw o
  unfolding outside new_frame
  observing-Saw f h o e = observe-Observed _ _ _ _ _ _ o (rw h at e)

  observed-Keeps :
      (o : Observation F)
      → Saw o
      → Keeps (On Fresh) (On Fresh) (set_state (λ s. record s { observation = some o }))
  unfolding set_state ObservationOf
  observed-Keeps o seen = record {
    leads = λ f h. record {
      holds = record {
        supervisor = h.holds.supervisor;
        ledger = h.holds.ledger;
        loaded = h.holds.loaded;
        sent = h.holds.sent;
        undecided = h.holds.undecided;
        observed = seen;
        planned = h.holds.planned;
      };
    };
  }

  pub observe_stage-Keeps : Keeps Started (On Fresh) (observe_stage repr a m symbol timeframe)
  unfolding observe_stage
  observe_stage-Keeps =
      catch-Keeps
        (known-Keeps Saw (λ f h. h) (observing-Keeps _) observing-Saw
          (λ o seen. bind-Keeps (observed-Keeps o seen) (λ _. search keeping depth 14)))
        (λ e. failed-Keeps _ _ e)

  required-Saw :
      (found : Option (Observation F)) (o : Observation F)
      → ObservationOf found
      → required_key "observation" found ≡ ok o
      → Saw o
  unfolding required_key ObservationOf
  required-Saw none o h e = cc
  required-Saw (some x) o h e = subst Saw (ok-inj e) h

  -- The input that is built for an observation, and the planner's answer to it.
  building-IsInput :
      (o : Observation F) (f : Frame F W) (i : PlannerInput F)
      → (outside (build_planner_input a.context_builder o none m.clock) f).0 ≡ ok i
      → IsInput o i
  unfolding outside
  building-IsInput o f i e = build_planner_input-IsInput a.context_builder o none m.clock _ i e

  propose-answer_of :
      (planner : Option (PlannerInput F → Step W (TradeProposal F))) (i : PlannerInput F)
      (f : Frame F W) (p : TradeProposal F)
      → (propose repr a m planner i f).0 ≡ ok p
      → answer_of planner i m.clock f.agent.session.world ≡ ok p
  unfolding propose outside
  propose-answer_of none i f p e = e
  propose-answer_of (some plan) i f p e = e

  proposed-Keeps :
      (o : Observation F) (p : TradeProposal F)
      → Saw o
      → Planned a m.clock o p
      → Keeps (On Fresh) (On Fresh) (set_state (λ s. record s { proposal = some p }))
  unfolding set_state ProposalOf
  proposed-Keeps o p seen h' = record {
    leads = λ f h. record {
      holds = record {
        supervisor = h.holds.supervisor;
        ledger = h.holds.ledger;
        loaded = h.holds.loaded;
        sent = h.holds.sent;
        undecided = h.holds.undecided;
        observed = h.holds.observed;
        planned = (o, seen, h');
      };
    };
  }

  pub plan_stage-Keeps : Keeps (On Fresh) (On Fresh) (plan_stage repr a m)
  unfolding plan_stage
  plan_stage-Keeps =
      catch-Keeps
        (known-Keeps Saw (λ f h. h) look-Keeps
          (λ f h o e. required-Saw f.state.observation o h.holds.observed e)
          (λ o seen.
            known-Keeps (IsInput o) (λ f h. h) (outside-Keeps _)
              (λ f _ i e. building-IsInput o f i e)
              (λ i input. bind-Keeps (set_state-Keeps _ (λ s. refl) (λ s. refl) (λ s. refl)) (λ _.
                known-Keeps (Planned a m.clock o) (λ f h. h)
                  (propose-Keeps repr a m Fresh a.planner i)
                  (λ f _ p e. record {
                    input = i;
                    of_observation = input;
                    asked_in = f.agent.session.world;
                    proposed = propose-answer_of a.planner i f p e;
                  })
                  (λ p planned.
                    bind-Keeps (proposed-Keeps o p seen planned) (λ _. search keeping depth 14))))))
        (λ e. failed-Keeps _ _ e)

  required-Planned :
      (found : Option (TradeProposal F)) (p : TradeProposal F)
      → ProposalOf found
      → required_key "proposal" found ≡ ok p
      → ((o : Observation F) × Saw o × Planned a m.clock o p)
  unfolding required_key ProposalOf
  required-Planned none p h e = cc
  required-Planned (some x) p h e =
      subst (λ y. (o : Observation F) × Saw o × Planned a m.clock o y) (ok-inj e) h

  ask_supervisor-Keeps :
      (p : TradeProposal F) (x : RiskContext F)
      → Keeps (On Ready) (On Undecided) (ask_supervisor repr a m p x)
  unfolding ask_supervisor
  ask_supervisor-Keeps p x = record {
    leads = λ f h. record {
      holds = record {
        ledger = h.holds.ledger;
        loaded = h.holds.loaded;
        sent = h.holds.sent;
        undecided = h.holds.undecided;
      };
    };
  }

  ask_supervisor-Reviewed :
      (o : Observation F) (planned p : TradeProposal F)
      → Saw o
      → Planned a m.clock o planned
      → Completed a.default_volume planned p
      → (f : Frame F W) → On Ready f
      → (d : SupervisorDecision F) → (ask_supervisor repr a m p (risk_context o m.clock) f).0 ≡ ok d
      → Reviewed d
  unfolding ask_supervisor
  ask_supervisor-Reviewed o planned p seen h c f k d e = record {
    observation = o;
    observed = seen;
    planned = planned;
    of_planner = h;
    proposal = p;
    completed = c;
    context = risk_context o m.clock;
    of_observation = risk_context-IsContext o m.clock;
    answered = rw k.holds.supervisor at e;
  }

  decide-Keeps :
      (d : SupervisorDecision F)
      → Reviewed d
      → Keeps (On Undecided) (On Decided) (set_state (λ s. record s { decision = some d }))
  unfolding set_state DecisionOf
  decide-Keeps d r = record {
    leads = λ f h. record {
      holds = record {
        ledger = h.holds.ledger;
        loaded = h.holds.loaded;
        sent = h.holds.sent;
        decided = r;
      };
    };
  }

  replaced-Keeps :
      (p : TradeProposal F)
      → Keeps (On Fresh) (On Ready) (set_state (λ s. record s { proposal = some p }))
  unfolding set_state
  replaced-Keeps p = record {
    leads = λ f h. record {
      holds = record {
        supervisor = h.holds.supervisor;
        ledger = h.holds.ledger;
        loaded = h.holds.loaded;
        sent = h.holds.sent;
        undecided = h.holds.undecided;
      };
    };
  }

  -- The review of the completed proposal, and what follows it.
  reviewing-Keeps :
      (o : Observation F) (planned p : TradeProposal F)
      → Saw o
      → Planned a m.clock o planned
      → Completed a.default_volume planned p
      → {rest : SupervisorDecision F → Step (Frame F W) (Unit {0})}
      → ((d : SupervisorDecision F) → Keeps (On Decided) (On Decided) (rest d))
      → Keeps (On Ready) (On Decided) (
          ask_supervisor repr a m p (risk_context o m.clock) >>= λ d.
          set_state (λ s. record s { decision = some d }) >>= λ _. rest d)
  reviewing-Keeps o planned p seen h c k =
      known-Keeps Reviewed (On-weaken Undecided-Decided) (ask_supervisor-Keeps p _)
        (ask_supervisor-Reviewed o planned p seen h c)
        (λ d r. then-Keeps (λ s q. q) (decide-Keeps d r) (λ _. k d))

  pub supervise_stage-Keeps : Keeps (On Fresh) (On Decided) (supervise_stage repr a m)
  unfolding supervise_stage
  supervise_stage-Keeps =
      catch-Keeps
        (known-Keeps Saw (On-weaken Fresh-Decided) look-Keeps
          (λ f h o e. required-Saw f.state.observation o h.holds.observed e)
          (λ o seen.
            known-Keeps (λ p. Planned a m.clock o p) (On-weaken Fresh-Decided) look-Keeps
              (λ f h p e.
                let (o', seen', planned) = required-Planned f.state.proposal p h.holds.planned e in
                subst (λ x. Planned a m.clock x p) (Observed-unique _ _ _ _ _ _ o' o seen' seen)
                  planned)
              (λ planned h.
                known-Keeps (Completed a.default_volume planned) (On-weaken Fresh-Decided)
                  look-Keeps (λ f _ p e. with_volume-Completed a.default_volume planned p e)
                  (λ p c. then-Keeps (On-weaken Ready-Decided) (replaced-Keeps p) (λ _.
                    reviewing-Keeps o planned p seen h c
                      (λ d. bind-Keeps (written-Keeps _ _) (λ _. append-Keeps _ _ _ _)))))))
        (λ e. failed-Keeps _ _ e)
