-- ===== src/Execution/Live/Orders.antt =====
-- mt5_agent/execution/executor.py: the outcomes of `_execute_live`, and those of its end, from
-- `order_send` on.
use llm_mt5_agent.Prelude.{
  sym, ap, String, ℕ, ◌∙◌, ◌≡◌, refl, Bool, true, false, Option, none, some, [], ◌∷◌, ◌++◌, ◌&&◌,
  ◌==◌, if◌then◌else◌, ◌⊎◌, inl, inr, Bool-cases, Option-cases, not, is_none,
}
use llm_mt5_agent.Python.Errors.{ok-inj, ok-raise, Exception, Result, ok, raise}
use llm_mt5_agent.Python.Float.{Float, Datetime}
use llm_mt5_agent.Domain.Account.{AccountInfo}
use llm_mt5_agent.Domain.Planning.{TradeProposal, action_eq, buy}
use llm_mt5_agent.Domain.Execution.{
  demo, dry_run, mode_eq, ExecutionStatus, success, rejected, failed, status_eq, OrderRequest,
  ExecutionRecord, new_execution_record,
}
use llm_mt5_agent.Execution.Session.{
  RawTick, TradeReply, Terminal, Connection, Session, Host, load_mt5, Action, attempt, call, send,
  ◌>>=◌,
}
use llm_mt5_agent.Execution.Reply.{trade_mode_real, is_checked, accepted, payload, or_zero}
use llm_mt5_agent.Execution.Records.{Executor, record_of}
use llm_mt5_agent.Execution.Live.{
  require_module, found_or_false, verify, filled, refused, send_order,
}

pub Result-cases :
    {A : Type 0} (r : Result A) → ((a : A) × (r ≡ ok a)) ⊎ ((e : Exception) × (r ≡ raise e))
Result-cases (ok a) = inl (a, refl)
Result-cases (raise e) = inr (e, refl)

-- The rule of a sequence of two statements.
pub bind_case :
    {F W A B : Type 0} (m : Action F W A) (f : A → Action F W B) (s : Session F W)
    (Q : Result B × Session F W → Type 0)
    → ((a : A) → (m s).0 ≡ ok a → Q (f a (m s).1))
    → ((e : Exception) → (m s).0 ≡ raise e → Q (raise e, (m s).1))
    → Q ((m >>= f) s)
unfolding ◌>>=◌
bind_case {F} {W} {A} {B} m f s Q = go (m s)
  where
    go :
        (x : Result A × Session F W)
        → ((a : A) → x.0 ≡ ok a → Q (f a x.1))
        → ((e : Exception) → x.0 ≡ raise e → Q (raise e, x.1))
        → Q (((λ _. x) >>= f) s)
    go (ok a, s') h k = h a refl
    go (raise e, s') h k = k e refl

pub bind-ok :
    {F W A B : Type 0} (m : Action F W A) (f : A → Action F W B) (s : Session F W) (a : A)
    → (m s).0 ≡ ok a
    → (m >>= f) s ≡ f a (m s).1
bind-ok m f s a h =
    bind_case m f s (λ x. x ≡ f a (m s).1) (λ b e. ap (λ c. f c (m s).1) (ok-inj (sym e ∙ h)))
      (λ x e. absurd (ok-raise (sym e ∙ h)))

-- Of a record only.
abbrev pub Says : {A : Type 0} → (A → Type 0) → Result A → Type 0
Says P (ok a) = P a
Says P (raise e) = Unit

pub new_execution_record-Says :
    {F : Type 0} (r : ExecutionRecord F) (P : ExecutionRecord F → Type 0)
    → P r
    → Says P (new_execution_record r)
unfolding new_execution_record
new_execution_record-Says r P h =
    elim (Bool-cases
      (status_eq r.status success && not (mode_eq r.mode dry_run) && is_none r.ticket)) [
        | inl e ↦ rw e tt
        | inr e ↦ rw e h
      ]

found_or_false-sent :
    {F W : Type 0} (found : Result Bool) (s : Session F W)
    → (found_or_false found s).1.sent ≡ s.sent
found_or_false-sent (ok b) s = refl
found_or_false-sent (raise e) s = refl

verify-sent :
    {F W : Type 0} (mt5 : Terminal F W) (ticket : ℕ) (s : Session F W)
    → (verify mt5 ticket s).1.sent ≡ s.sent
unfolding verify
verify-sent mt5 ticket s = elim (Bool-cases (ticket == 0)) [
  | inl e ↦ rw e refl
  | inr e ↦ rw e (
      bind_case (attempt (call (mt5.has_positions ticket))) found_or_false s
        (λ x. x.1.sent ≡ s.sent) (λ found _. found_or_false-sent found _) (λ _ _. refl))
]

pub require_module-sent :
    {F W : Type 0} (host : Host F W) (s : Session F W) → (require_module host s).1.sent ≡ s.sent
unfolding require_module
require_module-sent host s = elim (Option-cases s.mt5) [
  | inr (_, e) ↦ rw (e, require_module) refl
  | inl e ↦ elim (Result-cases (load_mt5 host)) [
    | inl (_, h) ↦ rw (e, h, require_module) refl
    | inr (_, h) ↦ rw (e, h, require_module) refl
  ]
]

-- The module that the executor works with: the loaded one, or the one that the host loads.
abbrev pub IsModule : {F W : Type 0} → Host F W → Option (Terminal F W) → Terminal F W → Type 0
IsModule host loaded mt5 = (loaded ≡ some mt5) ⊎ ((loaded ≡ none) × (load_mt5 host ≡ ok mt5))

pub require_module-world :
    {F W : Type 0} (host : Host F W) (s : Session F W) → (require_module host s).1.world ≡ s.world
unfolding require_module
require_module-world host s = elim (Option-cases s.mt5) [
  | inr (_, e) ↦ rw (e, require_module) refl
  | inl e ↦ elim (Result-cases (load_mt5 host)) [
    | inl (_, h) ↦ rw (e, h, require_module) refl
    | inr (_, h) ↦ rw (e, h, require_module) refl
  ]
]

pub require_module-IsModule :
    {F W : Type 0} (host : Host F W) (s : Session F W) (mt5 : Terminal F W)
    → (require_module host s).0 ≡ ok mt5
    → IsModule host s.mt5 mt5
unfolding require_module
require_module-IsModule host s mt5 h = elim (Option-cases s.mt5) [
  | inr (m, e) ↦ inl (e ∙ ap some (ok-inj (rw (e, require_module) at h)))
  | inl e ↦ inr (
    e,
    elim (Result-cases (load_mt5 host)) [
      | inl (m, k) ↦ k ∙ (rw (e, k, require_module) at h)
      | inr (x, k) ↦
          let refused : raise x ≡ ok mt5 = rw (e, k, require_module) at h in
          absurd (ok-raise refused)
    ],
  )
]

-- The price of a request at a tick: the ask of a purchase, the bid of a sale.
abbrev pub price_at : {F : Type 0} → OrderRequest F → RawTick F → F
price_at request tick = if action_eq request.action buy then tick.ask else tick.bid

module _ {F W : Type 0} ⦃fl : Float F⦄ (ex : Executor F W) (host : Host F W)
    (request : OrderRequest F) (s : Session F W) where
  -- The checks that an order has passed when it is sent. The calls before it are those of the
  -- account, the tick and `order_check`, one after the other from the session of the call.
  pub record Cleared (mt5 : Terminal F W) (price : F) : Type 0 where
    pub connection : Connection F W
    pub has_connection : ex.connection ≡ some connection
    pub connected : connection.is_connected s.world ≡ true
    pub account : AccountInfo F
    pub verified : (connection.get_account_info s.world).0 ≡ ok account
    pub not_real : (mode_eq ex.mode demo && account.trade_mode == trade_mode_real) ≡ false
    pub from_module : IsModule host s.mt5 mt5
    pub tick : RawTick F
    pub quoted :
        (mt5.symbol_info_tick request.symbol (connection.get_account_info s.world).1).0
        ≡ ok (some tick)
    pub priced : price ≡ price_at request tick
    pub checked : Option (TradeReply F)
    pub order_checked :
        (mt5.order_check
          (payload mt5 request price)
          (mt5.symbol_info_tick request.symbol (connection.get_account_info s.world).1).1).0
        ≡ ok checked
    pub is_done : is_checked checked ≡ true

  -- Nothing was sent, and no record says that it was; or one order was sent, after every check,
  -- and no record says that it was refused.
  unfoldable pub Ends : Result (ExecutionRecord F) × Session F W → Type 0
  Ends (answer, s') =
      ((s'.sent ≡ s.sent) × Says (λ r. status_eq r.status success ≡ false) answer)
      ⊎ ((mt5 : Terminal F W) × (price : F) × Cleared mt5 price
          × (s'.sent ≡ s.sent ++ (payload mt5 request price ∷ []))
          × Says (λ r. status_eq r.status rejected ≡ false) answer)

  -- The outcome before an order is sent: the executor's own refusal or failure.
  pub unsent :
      (s' : Session F W) (st : ExecutionStatus) (p : TradeProposal F) (id message code : String)
      (price : Option F) (clock : Datetime)
      → s'.sent ≡ s.sent
      → status_eq st success ≡ false
      → Ends (record_of ex id p st message code price clock, s')
  unfolding record_of Ends
  unsent s' st p id message code price clock e h =
      inl (e, new_execution_record-Says _ (λ r. status_eq r.status success ≡ false) h)

  pub raised : (s' : Session F W) (x : Exception) → s'.sent ≡ s.sent → Ends (raise x, s')
  unfolding Ends
  raised s' x e = inl (e, tt)

  -- The outcome after an order is sent.
  placed :
      (mt5 : Terminal F W) (price : F) (s' : Session F W) (r : ExecutionRecord F)
      → Cleared mt5 price
      → s'.sent ≡ s.sent ++ (payload mt5 request price ∷ [])
      → status_eq r.status rejected ≡ false
      → Ends (new_execution_record r, s')
  unfolding Ends
  placed mt5 price s' r cleared e h = inr (
    mt5,
    price,
    cleared,
    e,
    new_execution_record-Says r (λ r. status_eq r.status rejected ≡ false) h,
  )

  lost :
      (mt5 : Terminal F W) (price : F) (s' : Session F W) (x : Exception)
      → Cleared mt5 price
      → s'.sent ≡ s.sent ++ (payload mt5 request price ∷ [])
      → Ends (raise x, s')
  unfolding Ends
  lost mt5 price s' x cleared e = inr (mt5, price, cleared, e, tt)

  filled-Ends :
      (mt5 : Terminal F W) (reply : TradeReply F) (price : F) (clock : Datetime) (s' : Session F W)
      → Cleared mt5 price
      → s'.sent ≡ s.sent ++ (payload mt5 request price ∷ [])
      → Ends (filled ex mt5 request price reply clock s')
  unfolding filled
  filled-Ends mt5 reply price clock s' cleared e =
      bind_case (verify mt5 (or_zero reply.order)) _ s' Ends
        (λ verified _.
          placed mt5 price _ _ cleared (verify-sent mt5 (or_zero reply.order) s' ∙ e) refl)
        (λ x _. lost mt5 price _ x cleared (verify-sent mt5 (or_zero reply.order) s' ∙ e))

  pub unchecked :
      (mt5 : Terminal F W) (reply : Option (TradeReply F)) (p : TradeProposal F) (price : F)
      (clock : Datetime) (s' : Session F W)
      → s'.sent ≡ s.sent
      → Ends (refused ex mt5 request p price clock "order_check failed: " reply s')
  unfolding refused
  unchecked mt5 reply p price clock s' e =
      bind_case (call mt5.last_error) _ s' Ends
        (λ last _. unsent _ failed p _ _ _ (some price) clock e refl) (λ x _. raised _ x e)

  unaccepted :
      (mt5 : Terminal F W) (result : Option (TradeReply F)) (p : TradeProposal F) (price : F)
      (clock : Datetime) (s' : Session F W)
      → Cleared mt5 price
      → s'.sent ≡ s.sent ++ (payload mt5 request price ∷ [])
      → Ends (refused ex mt5 request p price clock "order_send failed: " result s')
  unfolding refused record_of
  unaccepted mt5 result p price clock s' cleared e =
      bind_case (call mt5.last_error) _ s' Ends (λ last _. placed mt5 price _ _ cleared e refl)
        (λ x _. lost mt5 price _ x cleared e)

  pub send_order-Ends :
      (mt5 : Terminal F W) (p : TradeProposal F) (price : F) (clock : Datetime) (s' : Session F W)
      → Cleared mt5 price
      → s'.sent ≡ s.sent
      → Ends (send_order ex mt5 request p price clock s')
  unfolding send_order
  send_order-Ends mt5 p price clock s' cleared e =
      bind_case (send mt5.order_send (payload mt5 request price)) _ s' Ends
        (λ result _. elim (Option-cases (accepted result)) [
          | inl h ↦ rw h (unaccepted mt5 result p price clock _ cleared (grow e))
          | inr (reply, h) ↦ rw h (filled-Ends mt5 reply price clock _ cleared (grow e))
        ])
        (λ x _. lost mt5 price _ x cleared (grow e))
    where
      grow :
          s'.sent ≡ s.sent
          → s'.sent ++ (payload mt5 request price ∷ []) ≡ s.sent ++ (payload mt5 request price ∷ [])
      grow h = ap (λ l. l ++ (payload mt5 request price ∷ [])) h
