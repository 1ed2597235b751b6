-- ===== src/Recovery/Resolve.antt =====
-- `_resolve_safely` of recovery.py.
use algo_dollar.Base.{
  String, ◌<>◌, Bool, true, false, Option, none, some, List, [], ◌∷◌, ◌++◌, keep_if, codes,
  is_nonempty, if◌then◌else◌,
}
use algo_dollar.Errors.{Result, ok, err, message}
use algo_dollar.Lifecycle.Store.{text_or}
use algo_dollar.Reconcile.Status.{
  DiscrepancyKind, unknown_order_state, classify_order_status, is_unknown_class,
}
use algo_dollar.Reconcile.Found.{Discrepancy}
use algo_dollar.Reconcile.Engine.{ReconciliationResult}
use algo_dollar.Recovery.{Surroundings}

abbrev is_unknown_state : DiscrepancyKind → Bool
is_unknown_state unknown_order_state = true
is_unknown_state _ = false

-- `(status or {}).get("status")`, with the `or ""` of classify_order_status
abbrev pub status_text : Option (Option String) → String
status_text none = ""
status_text (some s) = text_or s ""

abbrev pub status_action : String → Result (Option (Option String)) → List String
status_action id (err e) = []
status_action id (ok status) =
    if is_unknown_class (classify_order_status (codes (status_text status)))
    then []
    else ("order " <> (id <> " disambiguated at broker")) ∷ []

abbrev pub resolved : Result (List String) → List String
resolved (ok extra) = extra
resolved (err e) = ("resolver FAILED: " <> message e) ∷ []

module _ {F W : Type 0} (env : Surroundings F W) where
  -- The loop of `_resolve_safely` over the orders in an unknown state.
  unfoldable pub disambiguated : List (Discrepancy F) → W → List String
  disambiguated [] w = []
  disambiguated (found ∷ rest) w =
      let id = text_or found.order_id "" in
      (if is_nonempty id then status_action id (env.get_order_status id w) else [])
      ++ disambiguated rest w

  -- `_resolve_safely`
  unfoldable pub resolve_safely : ReconciliationResult F → W → List String × W
  unfolding disambiguated
  resolve_safely result w =
      let actions =
        if env.disambiguate
        then disambiguated (keep_if (λ found. is_unknown_state found.kind) result.discrepancies) w
        else [] in
      elim env.resolver [
        | none ↦ (actions, w)
        | some resolver ↦ (let (extra, w') = resolver result w in (actions ++ resolved extra, w'))
      ]
