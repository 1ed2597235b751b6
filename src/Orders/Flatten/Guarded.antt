-- ===== src/Orders/Flatten/Guarded.antt =====
-- The kill switch before `emergency_flatten_all` of order_manager.py acts.
use algo_dollar.Base.{
  ◌≡◌, refl, sym, ◌∙◌, ap, String, Bool, true, false, Option, ◌⊎◌, inl, inr, List, [], ◌∷◌, ◌++◌,
  All, Bool-cases,
}
use mathlib.Core.List.{append-nil, append_assoc}
use algo_dollar.Errors.{Exn, Result, ok, err, is_ok, kill_switch_active, Result-cases}
use algo_dollar.Double.{Double}
use algo_dollar.Orders.Broker.{BrokerPosition}
use algo_dollar.Orders.Env.{Env}
use algo_dollar.Orders.Exec.{
  engage_call, Log, World, Exec, raise, ask, attempt, query, call, continue, engage_switch, ◌>>=◌,
}
use algo_dollar.Orders.Exec.Calls.{
  kept_nothing, IsQuiet-pure, IsQuiet-attempt, IsQuiet-orders, IsQuiet-positions,
}
use algo_dollar.Orders.Exec.Grows.{Grows, Grows-of_quiet, Grows-bind}
use algo_dollar.Orders.Exec.Runs.{bind_err}
use algo_dollar.Orders.Flatten.{
  FlattenReport, start_flatten, cancel_phase, position_phase, flatten_positions,
  emergency_flatten_all,
}
use algo_dollar.Orders.Flatten.Once.{flatten_one_once, cancel_phase-IsQuiet}
use algo_dollar.Safety.KillSwitch.{
  StoreValue, IsFalseObject, is_kill_switch_active, engage_kill_switch, engage_kill_switch-active,
}

module _ {F X : Type 0} ⦃d : Double F⦄ (env : Env F X) where
  flatten_positions-Grows :
      (session : String) (ps : List BrokerPosition) (report : FlattenReport)
      → Grows (flatten_positions env session report ps)
  unfolding flatten_positions
  flatten_positions-Grows session [] report =
      Grows-of_quiet _ (IsQuiet-pure {P = λ _. Unit {0}} report)
  flatten_positions-Grows session (p ∷ ps) report =
      Grows-bind _ _
        (record {
          at = λ w.
              let sent = flatten_one_once env (kept_nothing env) session report p w tt in
              (sent.log, sent.extends);
        })
        (λ report'. flatten_positions-Grows session ps report')

  position_phase-Grows :
      (session : String) (report : FlattenReport) (m : Result (List BrokerPosition))
      → Grows (position_phase env session report m)
  unfolding position_phase
  position_phase-Grows session report (err e) =
      Grows-of_quiet _ (IsQuiet-pure {P = λ _. Unit {0}} _)
  position_phase-Grows session report (ok ps) = flatten_positions-Grows session ps report

  -- What follows the switch.
  abbrev after_switch : String → Exec F X FlattenReport
  after_switch session = attempt (query env.get_orders) >>= λ orders.
      cancel_phase env orders >>= λ report.
      attempt (query env.get_positions) >>= λ positions. position_phase env session report positions

  after_switch-Grows : (session : String) → Grows (after_switch session)
  after_switch-Grows session =
      Grows-bind _ _ (Grows-of_quiet _ (IsQuiet-attempt _ (IsQuiet-orders env (kept_nothing env))))
        (λ orders.
          Grows-bind _ _ (Grows-of_quiet _ (cancel_phase-IsQuiet env (kept_nothing env) orders))
            (λ report.
              Grows-bind _ _
                (Grows-of_quiet _ (IsQuiet-attempt _ (IsQuiet-positions env (kept_nothing env))))
                (λ positions. position_phase-Grows session report positions)))

  flatten-stopped :
      (override : Bool) (session : String) (w v : World F X) (e : Exn)
      → start_flatten env override w ≡ (err e, v)
      → emergency_flatten_all env override session w ≡ (err e, v)
  unfolding emergency_flatten_all
  flatten-stopped override session w v e h = bind_err _ _ (bind_err _ _ h)

  flatten-started :
      (override : Bool) (session : String) (w v : World F X)
      → start_flatten env override w ≡ (ok tt, v)
      → emergency_flatten_all env override session w ≡ after_switch session v
  unfolding emergency_flatten_all ◌>>=◌
  flatten-started override session w v h =
      ap
        (λ (p : Result (Unit {0}) × World F X).
          continue (continue p.0 (λ _. attempt (query env.get_orders)) p.1).0
            (λ orders. cancel_phase env orders >>= λ report.
              attempt (query env.get_positions) >>= λ positions.
              position_phase env session report positions)
            (continue p.0 (λ _. attempt (query env.get_orders)) p.1).1)
        h

  start_flatten-halted :
      (w : World F X)
      → is_kill_switch_active env.switch w.outside ≡ true
      → start_flatten env false w ≡ (err (kill_switch_active "Kill switch is active."), w)
  unfolding start_flatten ask raise ◌>>=◌
  start_flatten-halted w on = rw on refl

  start_flatten-engages :
      (override : Bool) (w : World F X)
      → is_kill_switch_active env.switch w.outside ≡ false
      → start_flatten env override w ≡ engage_switch env w
  unfolding start_flatten ask ◌>>=◌
  start_flatten-engages override w off = rw off refl

  engage_switch-calls :
      (w : World F X)
      → (engage_switch env w).1.calls
        ≡ w.calls ++ (engage_call, is_ok (engage_kill_switch env.switch w.outside).0) ∷ []
  unfolding engage_switch call
  engage_switch-calls w = refl

  engage_switch-value :
      (w : World F X) → (engage_switch env w).0 ≡ (engage_kill_switch env.switch w.outside).0
  unfolding engage_switch call
  engage_switch-value w = refl

-- One of the three ways an emergency flatten goes, by what it adds to the log of calls.
pub data Guarded {F X A : Type 0} (env : Env F X) (override : Bool) (w : World F X)
    (out : Result A × World F X) : Type 0 where
  -- It raises, and has called nothing but, at most, the switch.
  stopped :
      (log : Log F)
      → out.1.calls ≡ w.calls ++ log
      → All (λ c. c.0 ≡ engage_call) log
      → is_ok out.0 ≡ false
      → Guarded env override w out
  -- The switch was on, and is overridden.
  overridden :
      override ≡ true
      → is_kill_switch_active env.switch w.outside ≡ true
      → Guarded env override w out
  -- The switch was off. The first call turned it on and returned, and it reads as on afterwards,
  -- unless the client hands back a false object.
  engaged :
      is_kill_switch_active env.switch w.outside ≡ false
      → (log : Log F) → out.1.calls ≡ w.calls ++ (engage_call, true) ∷ log
      → (let x = (engage_kill_switch env.switch w.outside).1 in
          (is_kill_switch_active env.switch x ≡ true)
          ⊎ ((v : Option StoreValue) × (env.switch.get x ≡ ok v) × IsFalseObject v))
      → Guarded env override w out

module _ {F X : Type 0} ⦃d : Double F⦄ (env : Env F X) where
  Guarded-refused :
      (session : String) (w : World F X)
      → is_kill_switch_active env.switch w.outside ≡ true
      → Guarded env false w (emergency_flatten_all env false session w)
  Guarded-refused session w on =
      let run = flatten-stopped env false session w w _ (start_flatten-halted env w on) in
      stopped [] (ap (λ p. p.1.calls) run ∙ sym (append-nil w.calls)) tt (ap (λ p. is_ok p.0) run)

  Guarded-failed :
      (override : Bool) (session : String) (w : World F X) (e : Exn)
      → is_kill_switch_active env.switch w.outside ≡ false
      → (engage_kill_switch env.switch w.outside).0 ≡ err e
      → Guarded env override w (emergency_flatten_all env override session w)
  Guarded-failed override session w e off failed =
      let v = (engage_switch env w).1 in
      let raises : engage_switch env w ≡ (err e, v) =
        ap (λ m. (m, v)) (engage_switch-value env w ∙ failed) in
      let run =
        flatten-stopped env override session w v e
          (start_flatten-engages env override w off ∙ raises) in
      stopped ((engage_call, is_ok (engage_kill_switch env.switch w.outside).0) ∷ [])
        (ap (λ p. p.1.calls) run ∙ engage_switch-calls env w) (refl, tt) (ap (λ p. is_ok p.0) run)

  Guarded-engaged :
      (override : Bool) (session : String) (w : World F X)
      → is_kill_switch_active env.switch w.outside ≡ false
      → (engage_kill_switch env.switch w.outside).0 ≡ ok tt
      → Guarded env override w (emergency_flatten_all env override session w)
  Guarded-engaged override session w off done =
      let v = (engage_switch env w).1 in
      let returns : engage_switch env w ≡ (ok tt, v) =
        ap (λ m. (m, v)) (engage_switch-value env w ∙ done) in
      let run =
        flatten-started env override session w v
          (start_flatten-engages env override w off ∙ returns) in
      let (log, grown) = (after_switch-Grows env session).at v in
      let first =
        engage_switch-calls env w
        ∙ ap (λ (m : Result (Unit {0})). w.calls ++ (engage_call, is_ok m) ∷ []) done in
      engaged off log
        (ap (λ p. p.1.calls) run
          ∙ grown
          ∙ ap (λ calls. calls ++ log) first
          ∙ append_assoc w.calls ((engage_call, true) ∷ []) log)
        (engage_kill_switch-active env.switch w.outside done)

  -- However `emergency_flatten_all` goes, it calls nothing at the store or the broker, and raises,
  -- unless the switch was on and is overridden, or was off and its first call turned it on and
  -- returned, after which the switch reads as on (unless the client hands back a false object).
  pub emergency_flatten_all-Guarded :
      (override : Bool) (session : String) (w : World F X)
      → Guarded env override w (emergency_flatten_all env override session w)
  emergency_flatten_all-Guarded override session w =
      elim (Bool-cases (is_kill_switch_active env.switch w.outside)) [
        | inl on ↦ when_on override on
        | inr off ↦ elim (Result-cases (engage_kill_switch env.switch w.outside).0) [
          | inl (u, done) ↦ Guarded-engaged override session w off done
          | inr (e, failed) ↦ Guarded-failed override session w e off failed
        ]
      ]
    where
      when_on :
          (o : Bool)
          → is_kill_switch_active env.switch w.outside ≡ true
          → Guarded env o w (emergency_flatten_all env o session w)
      when_on true on = overridden refl on
      when_on false on = Guarded-refused session w on
