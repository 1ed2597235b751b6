-- ===== src/Orders/Pricing.antt =====
-- `Signal` and `resolve_reference_price` of order_manager.py.
use algo_dollar.Base.{String, ◌<>◌, Bool, not, ◌||◌, Option, none, some, [], if◌then◌else◌}
use algo_dollar.Base.Dict.{Dict, lookup}
use algo_dollar.Errors.{Result, ok, err, safety_check, stale_data}
use algo_dollar.Double.{Double, nought}
use algo_dollar.Orders.Broker.{
  OrderType, TransactionType, Product, Quote, is_market_priced, order_type_value,
}
use algo_dollar.Orders.Env.{Env}
use algo_dollar.Orders.Exec.{Exec, pure, raise, lift, attempt, ask, query, ◌>>=◌, ◌>>◌}

pub record Signal (F : Type 0) : Type 0 where
  pub symbol : String
  pub exchange : String
  pub txn_type : TransactionType
  pub order_type : OrderType
  pub product : Product
  pub price : F
  pub stop_price : F
  pub strategy : String
  pub client_order_id : String
  pub intent_kind : String

module _ {F : Type 0} where
  -- `quotes or {}`
  abbrev quotes_or_empty : Option (Dict (Quote F)) → Dict (Quote F)
  quotes_or_empty none = []
  quotes_or_empty (some q) = q

  -- `a or b` of two looked-up dicts: an empty dict counts as missing.
  abbrev quote_or : Option (Quote F) → Option (Quote F) → Option (Quote F)
  quote_or none other = other
  quote_or (some q) other = if q.is_empty then other else some q

  unfoldable pub find_quote : Signal F → Option (Dict (Quote F)) → Option (Quote F)
  find_quote sig quotes =
      quote_or (lookup (sig.exchange <> (":" <> sig.symbol)) (quotes_or_empty quotes))
        (lookup sig.symbol (quotes_or_empty quotes))

module _ {F : Type 0} ⦃d : Double F⦄ where
  -- A limit price, or a last price, that can be used.
  abbrev pub is_usable : F → Bool
  is_usable price = not (not (d.is_finite price) || d.le price nought)

  usable_last : F → Result F
  usable_last last =
      if is_usable last then ok last else err (stale_data "last_price is not a usable price")

  -- `if not quote: …` and the checks of `last_price`
  unfoldable pub last_price_of : Option (Quote F) → Result F
  unfolding usable_last
  last_price_of none = err (stale_data "no quote returned")
  last_price_of (some q) =
      if q.is_empty then err (stale_data "no quote returned") else elim q.last_price [
        | none ↦ err (stale_data "last_price is no number")
        | some last ↦ usable_last last
      ]

module _ {F X : Type 0} where
  unfoldable pub quote_fresh : Option (String → X → Result Bool) → String → Exec F X (Unit {0})
  quote_fresh none symbol = pure tt
  quote_fresh (some is_stale) symbol = ask (is_stale symbol) >>= λ stale.
      if stale then raise (stale_data "the quote just fetched is stale") else pure tt

module _ {F X : Type 0} ⦃d : Double F⦄ (env : Env F X) where
  -- `if hasattr(broker, "is_stale_tick"): …`, read after the quote was fetched
  unfoldable pub check_quote_fresh : String → Exec F X (Unit {0})
  unfolding quote_fresh
  check_quote_fresh symbol = quote_fresh env.is_stale_at symbol

  unfoldable pub market_price : Signal F → Exec F X F
  unfolding check_quote_fresh
  market_price sig =
      attempt (query (env.get_quote (sig.exchange <> (":" <> sig.symbol)))) >>= λ quotes.
      elim quotes [
        | err e ↦ raise (stale_data "quote lookup failed")
        | ok q ↦ (check_quote_fresh sig.symbol >> lift (last_price_of (find_quote sig q)))
      ]

  unfoldable pub resolve_reference_price : Signal F → Exec F X F
  unfolding market_price
  resolve_reference_price sig =
      if is_market_priced sig.order_type
      then market_price sig
      else if is_usable sig.price
      then pure sig.price
      else raise
          (safety_check (order_type_value sig.order_type <> " order needs a positive limit price"))
