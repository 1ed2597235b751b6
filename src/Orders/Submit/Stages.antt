-- ===== src/Orders/Submit/Stages.antt =====
-- The stages of `submit_order` (order_manager.py), one by one: each sends at most the one order.
use algo_dollar.Base.{
  ◌≡◌, refl, sym, ap, ◌∙◌, String, ◌<>◌, Bool, true, false, not, ◌&&◌, ◌||◌, Option, none, some,
  List, [], ◌∷◌, ◌++◌, ℤ, arith,
}
use mathlib.Core.List.{append_assoc, append-nil}
use algo_dollar.Errors.{Result, ok, err, is_ok, message, is_safety_error}
use algo_dollar.Double.{Double, nought, or_nought}
use algo_dollar.Lifecycle.States.{submitted, risk_approved, risk_check_pending}
use algo_dollar.Lifecycle.Record.{OrderRecord, transition_fields}
use algo_dollar.Safety.Validate.{OrderCheck, ValidationResult, validate_order}
use algo_dollar.Orders.Broker.{PlaceArgs, order_type_value, is_triggered}
use algo_dollar.Orders.Costs.{compute_trade_risk}
use algo_dollar.Orders.Env.{Env, Settings}
use algo_dollar.Orders.Exec.{
  World, Exec, save_call, place_call, call, attempt, save_record, place_order, continue, ◌>>=◌,
  ◌>>◌,
}
use algo_dollar.Orders.Exec.Calls.{
  IsKept, IsQuiet, IsQuiet-bind, IsQuiet-attempt, IsQuiet-lift, IsQuiet-pure, IsQuiet-raise,
  IsQuiet-save, IsQuiet-if,
}
use algo_dollar.Orders.Pricing.{Signal}
use algo_dollar.Orders.Quiet.{
  resolve_unknown-IsQuiet, blocking_record_for-IsQuiet, resolve_reference_price-IsQuiet,
  apply_any_immediate_fill-IsQuiet,
}
use algo_dollar.Orders.Submit.{
  Account, log_rejected_order, persist_order, refuse, check_of, run_validation, place_args,
  after_place, send, with_trigger, with_risk, with_risk_of, with_price, priced, submit_reserved,
}
use algo_dollar.Orders.Submit.Sends.{
  nothing, once, MaySend, IsSender, IsSender-of_quiet, IsSender-if, IsSender-either, IsSender-lift,
  IsSender-after,
}

module _ {F X : Type 0} (env : Env F X) {P : X → Type 0} (kept : IsKept env P) where
  -- A write of the submitted record, then the call: the one place where an order is sent.
  pub save_then_place :
      {A : Type 0} {G : Type 0} (r : OrderRecord F) (args : PlaceArgs F)
      (f : Result (Option String) → Exec F X A) (w : World F X)
      → r.state ≡ submitted
      → r.client_order_id ≡ args.tag
      → G
      → P w.outside
      → ((o : Result (Option String)) → IsQuiet P (f o))
      → MaySend P args G w ((save_record env r >> attempt (place_order env args) >>= f) w)
  unfolding save_record place_order call attempt ◌>>=◌
  save_then_place {A} {G} r args f w s c g p q =
      go (env.save r w.outside).0 (env.save r w.outside).1 (kept.by_save r w.outside p)
    where
      saved : Bool → X → World F X
      saved b x = record { outside = x; calls = w.calls ++ (save_call r, b) ∷ [] }

      go :
          (rs : Result (Unit {0})) (x : X)
          → P x
          → MaySend P args G w (
              (λ (u : World F X).
                  let (r1, w1) = continue rs (λ _. attempt (place_order env args)) u in
                  continue r1 f w1)
                (saved (is_ok rs) x))
      go (err e) x k = record {
        log = (save_call r, false) ∷ [];
        extends = refl;
        sends = nothing refl;
        keeps = k;
      }
      go (ok tt) x k =
          let o = env.place_order args x in
          let v : World F X = record {
            outside = o.1;
            calls = (w.calls ++ (save_call r, true) ∷ []) ++ (place_call args, is_ok o.0) ∷ [];
          } in
          let (after, e, n, keep) = (q o.0).at v in
          record {
            log = (save_call r, true) ∷ (place_call args, is_ok o.0) ∷ after;
            extends =
                e
                ∙ ap (λ l. l ++ after)
                    (append_assoc w.calls ((save_call r, true) ∷ [])
                      ((place_call args, is_ok o.0) ∷ []))
                ∙ append_assoc w.calls ((save_call r, true) ∷ (place_call args, is_ok o.0) ∷ [])
                    after;
            sends = once [] after r (is_ok o.0) refl n s c g refl;
            keeps = keep (kept.by_place args x k);
          }

  refuse-IsQuiet :
      (r : OrderRecord F) (reason : String) (reasons : List String)
      → IsQuiet P (refuse env r reason reasons)
  unfolding refuse log_rejected_order
  refuse-IsQuiet r reason reasons =
      IsQuiet-bind _ _ (IsQuiet-lift _)
        (λ r'. IsQuiet-bind _ _ (IsQuiet-save env kept _) (λ _. IsQuiet-pure _))

module _ {F X : Type 0} ⦃d : Double F⦄ (env : Env F X) (settings : Settings F) {P : X → Type 0}
    (kept : IsKept env P) where
  after_place-IsQuiet :
      (r : OrderRecord F) (o : Result (Option String)) → IsQuiet P (after_place env settings r o)
  unfolding after_place
  after_place-IsQuiet r (err e) =
      IsQuiet-bind _ _ (IsQuiet-lift _) (λ r'.
        IsQuiet-bind _ _ (IsQuiet-save env kept r') (λ _. resolve_unknown-IsQuiet env kept r'))
  after_place-IsQuiet r (ok answer) =
      IsQuiet-if _ _ _
        (IsQuiet-bind _ _ (IsQuiet-lift _) (λ r'.
          IsQuiet-bind _ _
            (IsQuiet-bind _ _ (IsQuiet-save env kept r')
              (λ _. apply_any_immediate_fill-IsQuiet env kept r'))
            (λ _. IsQuiet-pure _)))
        (IsQuiet-bind _ _ (IsQuiet-lift _) (λ r'.
          IsQuiet-bind _ _ (IsQuiet-save env kept r') (λ _. resolve_unknown-IsQuiet env kept r')))

  run_validation-IsQuiet : (c : OrderCheck F) → IsQuiet P (run_validation env settings c)
  unfolding run_validation
  run_validation-IsQuiet c = record { at = λ w. ([], sym (append-nil w.calls), refl, λ p. p) }

  run_validation_ran :
      (c : OrderCheck F) (w : World F X) (v : ValidationResult)
      → (run_validation env settings c w).0 ≡ ok v
      → v.passed ≡ true
      → (validate_order env.switch settings.require_market_hours_support w.outside
          (env.view w.outside)
          c).passed
        ≡ true
  unfolding run_validation
  run_validation_ran c w v e p = ground arith

  module _ {G : Type 0} (sig : Signal F) (size : ℤ) (account : Account F) where
    send-IsSender :
        (ref_price : F) (r : OrderRecord F)
        → r.client_order_id ≡ sig.client_order_id
        → G
        → IsSender P (place_args env settings sig size) G (send env settings sig size ref_price r)
    unfolding send persist_order place_args
    send-IsSender ref_price r c g = IsSender-lift _ _ (λ r' e.
        let (state, id) = transition_fields r submitted "sending to broker" false r' e in
        record {
          from =
              λ w p. save_then_place env kept _ _ _ w state (id ∙ c) g p (after_place-IsQuiet r');
        })

    with_trigger-IsSender :
        (ref_price : F) (r : OrderRecord F)
        → r.client_order_id ≡ sig.client_order_id
        → G
        → IsSender P
            (place_args env settings sig size)
            G
            (with_trigger env settings sig size ref_price r)
    unfolding with_trigger
    with_trigger-IsSender ref_price r c g =
        IsSender-either
          (is_triggered sig.order_type
            && (not (d.is_finite (or_nought sig.stop_price))
                || d.le (or_nought sig.stop_price) nought))
          _ _
          (IsSender-of_quiet _ (
            refuse-IsQuiet env kept r
              (order_type_value sig.order_type <> " needs a positive stop_price")
              ("trigger_price: missing" ∷ [])))
          (IsSender-either (is_triggered sig.order_type && not env.supports_trigger) _ _
            (IsSender-of_quiet _ (
              refuse-IsQuiet env kept r "place_order does not accept trigger_price"
                ("trigger_price: place_order does not accept trigger_price" ∷ [])))
            (send-IsSender ref_price r c g))

    -- `G` follows from a validation that passed.
    module _
        (validated : (x : X) (ref_price risk : F)
          → P x
          → (validate_order env.switch settings.require_market_hours_support x
              (env.view x)
              (check_of env settings sig size account ref_price risk)).passed
            ≡ true
          → G) where
      with_risk-IsSender :
          (ref_price : F) (r : OrderRecord F) (risk : F)
          → r.client_order_id ≡ sig.client_order_id
          → IsSender P
              (place_args env settings sig size)
              G
              (with_risk env settings sig size account ref_price r risk)
      unfolding with_risk
      with_risk-IsSender ref_price r risk c =
          IsSender-after _ _ (run_validation-IsQuiet _) (λ v w p ran.
            IsSender-if v.passed _ _
              (λ passed. IsSender-lift _ _ (λ r' e.
                let id = (transition_fields r risk_approved "all gates passed" false r' e).1 in
                IsSender-after _ _ (IsQuiet-save env kept r') (λ _ _ _ _.
                  with_trigger-IsSender ref_price r' (id ∙ c)
                    (validated w.outside ref_price risk p (run_validation_ran _ w v ran passed)))))
              (λ _. IsSender-of_quiet _ (refuse-IsQuiet env kept _ _ _)))

      with_price-IsSender :
          (r : OrderRecord F) (ref_price : F)
          → r.client_order_id ≡ sig.client_order_id
          → IsSender P
              (place_args env settings sig size)
              G
              (with_price env settings sig size account r ref_price)
      unfolding with_price
      with_price-IsSender r ref_price c =
          go (compute_trade_risk settings.require_stop size ref_price sig.stop_price)
        where
          go :
              (m : Result F)
              → IsSender P
                  (place_args env settings sig size)
                  G
                  (with_risk_of env settings sig size account ref_price r m)
          go (err e) = IsSender-of_quiet _ (refuse-IsQuiet env kept _ _ _)
          go (ok risk) = with_risk-IsSender ref_price r risk c

      priced-IsSender :
          (r : OrderRecord F) (m : Result F)
          → r.client_order_id ≡ sig.client_order_id
          → IsSender P
              (place_args env settings sig size)
              G
              (priced env settings sig size account r m)
      unfolding priced
      priced-IsSender r (err e) c =
          IsSender-either (is_safety_error e) _ _
            (IsSender-of_quiet _
              (refuse-IsQuiet env kept r (message e) (("reference_price: " <> message e) ∷ [])))
            (IsSender-of_quiet _ (IsQuiet-raise _))
      priced-IsSender r (ok ref_price) c = with_price-IsSender _ ref_price c

      pub submit_reserved-IsSender :
          (r : OrderRecord F)
          → r.client_order_id ≡ sig.client_order_id
          → IsSender P
              (place_args env settings sig size)
              G
              (submit_reserved env settings sig size account r)
      unfolding submit_reserved log_rejected_order
      submit_reserved-IsSender r c =
          IsSender-after _ _ (blocking_record_for-IsQuiet env kept sig) (elim [
            | none ↦ λ _ _ _. IsSender-lift _ _ (λ r' e.
                let id = (transition_fields r risk_check_pending "running gates" false r' e).1 in
                IsSender-after _ _
                  (IsQuiet-bind _ _ (IsQuiet-save env kept r')
                    (λ _. IsQuiet-attempt _ (resolve_reference_price-IsQuiet env kept sig)))
                  (λ price _ _ _. priced-IsSender r' price (id ∙ c)))
            | some b ↦ λ _ _ _. IsSender-of_quiet _ (
                IsQuiet-bind _ _ (IsQuiet-lift _)
                  (λ r'. IsQuiet-bind _ _ (IsQuiet-save env kept _) (λ _. IsQuiet-raise _)))
          ])
