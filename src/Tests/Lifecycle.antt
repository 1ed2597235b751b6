-- ===== src/Tests/Lifecycle.antt =====
-- Runs of the order lifecycle, its fills, its store and its ids.
use algo_dollar.Base.{
  ◌≤◌, ◌≡◌, refl, Bool, true, false, not, inl, inr, none, some, List, [], ◌∷◌, pos, negsuc, ◌+ℤ◌,
  ◌<ℤ◌, ◌↔◌, starts_with, take_text, text_length, codes, upper, strip, arith, if◌then◌else◌, ◌==◌,
}
use algo_dollar.Base.Dict.{lookup, insert}
use algo_dollar.Base.Member.{contains}
use algo_dollar.Double.{Units, units_double}
use algo_dollar.Errors.{ok, is_ok}
use algo_dollar.Lifecycle.BrokerStatus.{map_broker_status, map_broker_status_filled}
use algo_dollar.Lifecycle.Fills.{
  FillMessage, IsBounded, deliver, deliver_all, deliver_all_again, deliver_all-IsBounded,
}
use algo_dollar.Lifecycle.Record.{OrderRecord, apply_fill, to_dict, from_dict}
use algo_dollar.Lifecycle.States.{
  OrderState, intent_created, risk_check_pending, risk_approved, submitted, acknowledged, filled,
  unknown, partially_filled, is_terminal, of_value,
}
use algo_dollar.Lifecycle.Store.{MemoryStore, reserve, get, save, get_position, position_key}
use algo_dollar.Lifecycle.Store.Laws.{is_reserved, reserve_once, get-save}
use algo_dollar.Lifecycle.Store.Positions.{Delta, net_change, apply_deltas, apply_deltas-quantity}
use algo_dollar.Lifecycle.Tags.{
  tag_max_len, strategy_prefix_len, strategy_tag_prefix, make_client_order_id,
  make_client_order_id-fits,
}
use algo_dollar.Lifecycle.Transitions.{assert_transition}
use algo_dollar.Lifecycle.Transitions.Paths.{
  Moves, walk, states, way_out, LeavesSafely, walk_passes_risk, walk-LeavesSafely, walk_ends,
}
use algo_dollar.Tests.Toy.{toy_record, toy_outside, store_with}
use algo_dollar.Lifecycle.Redis.Represents.{Represents}
use algo_dollar.Lifecycle.Redis.Calls.{
  StoreCall, reserving, saving, getting, trading, Answer, yes_no, found, saved, memory_step,
  memory_run, redis_run,
}
use algo_dollar.Lifecycle.Redis.Refines.{redis_refines}
use algo_dollar.Tests.ToyRedis.{toy_redis, toy_redis-IsRedis}
use algo_dollar.Lifecycle.Store.{empty_store, FillData, record_trade}
use mathlib.Core.List.{Memᴰ}
use mathlib.Core.List.Memᴰ
use algo_dollar.Base.{String, sym, List, some, none, eq_iff, Bool-cases}
use algo_dollar.Errors.{ok}
use algo_dollar.Lifecycle.Redis.{record_text, record_key, redis_get, iter_keys, redis_list_open}
use algo_dollar.Lifecycle.Redis.Scan.{Scanned, redis_list_open_iff}
use algo_dollar.Tests.ToyRedis.{Kept, toy_redis, toy_redis-IsRedis}

abbrev life : Moves
life =
    (risk_check_pending, false)
    ∷ (risk_approved, false)
    ∷ (submitted, false)
    ∷ (acknowledged, false)
    ∷ (filled, false)
    ∷ []

walk-life : walk intent_created life ≡ ok filled
unfolding walk assert_transition
walk-life = refl

walk_passes_risk_example :
    (rest : List OrderState) × (states life ≡ risk_check_pending ∷ risk_approved ∷ submitted ∷ rest)
walk_passes_risk_example = walk_passes_risk life filled walk-life refl

walk-LeavesSafely_example : LeavesSafely intent_created life
walk-LeavesSafely_example = walk-LeavesSafely intent_created life filled walk-life

walk_ends_example :
    ((u : OrderState) × (walk unknown (way_out unknown) ≡ ok u) × (is_terminal u ≡ true))
    × ((is_terminal unknown ≡ true)
        ↔ ((t : OrderState) (r : Bool) → is_ok (assert_transition unknown t r) ≡ false))
walk_ends_example = walk_ends unknown

abbrev two_fills : List (FillMessage Units)
two_fills =
    record { qty = pos 4; price = some (pos 100); fill_id = "F1" }
    ∷ record { qty = pos 7; price = some (pos 100); fill_id = "F2" }
    ∷ []

-- The second message is more than what the order has left.
two_fills_run : (deliver_all two_fills (toy_record acknowledged)).filled_qty ≡ pos 4
unfolding deliver_all deliver apply_fill contains units_double ◌+ℤ◌
two_fills_run = refl

deliver_all-IsBounded_example : IsBounded (deliver_all two_fills (toy_record acknowledged))
deliver_all-IsBounded_example =
    deliver_all-IsBounded two_fills (toy_record acknowledged)
      (record { some_filled = omega arith; within_order = omega arith })

deliver_all_again_example :
    deliver_all two_fills (deliver_all two_fills (toy_record acknowledged))
    ≡ deliver_all two_fills (toy_record acknowledged)
deliver_all_again_example =
    deliver_all_again two_fills two_fills (toy_record acknowledged) (inl refl, (inr (inl refl), tt))

reserve_once_example :
    let r = toy_record intent_created in
    let s = toy_outside.store in
    let (won, t) = reserve r s in
    (won ≡ not (is_reserved r.client_order_id s))
    × (won ≡ true → get r.client_order_id t ≡ ok (some r))
    × (won ≡ false → t ≡ s)
    × ((q : OrderRecord Units) → q.client_order_id ≡ r.client_order_id → reserve q t ≡ (false, t))
reserve_once_example = reserve_once (toy_record intent_created) toy_outside.store

abbrev held_store : MemoryStore Units
held_store = store_with (toy_record acknowledged)

get-save_example : get "momentumab" (store_with (toy_record partially_filled)) ≡ (
    if "momentumab" == "momentumab"
    then ok (some (toy_record partially_filled))
    else get "momentumab" held_store)
unfolding save lookup insert to_dict
get-save_example = get-save (toy_record partially_filled) held_store "momentumab" refl

abbrev two_deltas : List (Delta Units)
two_deltas =
    record {
      symbol = "TCS";
      exchange = "NSE";
      product = "CNC";
      change = pos 4;
      price = some (pos 100);
    }
    ∷ record {
      symbol = "TCS";
      exchange = "NSE";
      product = "MIS";
      change = negsuc 2;
      price = some (pos 90);
    }
    ∷ []

apply_deltas-quantity_example :
    (get_position "TCS" "NSE" "CNC" (apply_deltas two_deltas toy_outside.store)).quantity
    ≡ (get_position "TCS" "NSE" "CNC" toy_outside.store).quantity
      +ℤ net_change (position_key "TCS" "NSE" "CNC") two_deltas
apply_deltas-quantity_example = apply_deltas-quantity two_deltas "TCS" "NSE" "CNC" toy_outside.store

map_broker_status_filled_example :
    (map_broker_status (some " complete ") (pos 3) (pos 10) ≡ filled) ↔ (
      (upper (strip (codes " complete ")) ≡ codes "COMPLETE")
      × ¬ ((pos 0 <ℤ pos 10) × (pos 0 <ℤ pos 3) × (pos 3 <ℤ pos 10)))
map_broker_status_filled_example = map_broker_status_filled " complete " (pos 3) (pos 10)

make_client_order_id-fits_example :
    let tag = make_client_order_id "0123456789abcdef0123456789abcdef" "mean_reversion" in
    (text_length tag ≤ tag_max_len)
    × (starts_with (take_text strategy_prefix_len tag) (strategy_tag_prefix "mean_reversion")
        ≡ true)
make_client_order_id-fits_example =
    make_client_order_id-fits "0123456789abcdef0123456789abcdef" "mean_reversion"

abbrev toy_fill : FillData Units
toy_fill = record {
  qty = pos 10;
  price = some (pos 100);
  txn_type = some "BUY";
  product = some "CNC";
  exchange = some "NSE";
  symbol = some "TCS";
  fill_id = some "F1";
  trade_id = "F1";
  timestamp = "";
  fill_time = "";
}

abbrev toy_calls : List (StoreCall Units)
toy_calls =
    reserving (toy_record intent_created)
    ∷ reserving (toy_record intent_created)
    ∷ saving (toy_record submitted)
    ∷ trading "momentumab" toy_fill
    ∷ trading "momentumab" toy_fill
    ∷ getting "momentumab"
    ∷ getting "other"
    ∷ []

empty-Represents : Represents toy_redis toy_redis-IsRedis "order" [] (empty_store {F = Units})
unfolding lookup contains empty_store
empty-Represents = record { records = λ _. refl; trades = λ _. refl; positions = λ _. refl }

abbrev toy_answers : List (Answer Units)
toy_answers =
    yes_no true
    ∷ yes_no false
    ∷ saved
    ∷ yes_no true
    ∷ yes_no false
    ∷ found (some (toy_record submitted))
    ∷ found none
    ∷ []

memory_run-toy : (t : MemoryStore Units) × (memory_run toy_calls empty_store ≡ ok (toy_answers, t))
unfolding memory_run memory_step reserve save get record_trade lookup insert contains empty_store
    from_dict of_value to_dict
memory_run-toy = (_, refl)

redis_refines_example :
    ((redis_run toy_redis "order" toy_calls []).0 ≡ ok toy_answers)
    × Represents toy_redis toy_redis-IsRedis "order"
        (redis_run toy_redis "order" toy_calls []).1
        memory_run-toy.0
redis_refines_example =
    redis_refines toy_redis toy_redis-IsRedis "order" toy_calls [] empty_store toy_answers
      memory_run-toy.0 empty-Represents memory_run-toy.1

abbrev toy_key : String
toy_key = "order:rec:momentumab"

abbrev toy_kept : Kept
toy_kept = (toy_key, record_text (to_dict (toy_record submitted))) ∷ []

redis_get-missing :
    (cid : String)
    → (toy_key == record_key "order" cid) ≡ false
    → redis_get toy_redis "order" cid toy_kept ≡ ok none
unfolding redis_get lookup
redis_get-missing cid e = rw e refl

redis_get-kept :
    (cid : String)
    → record_key "order" cid ≡ toy_key
    → redis_get toy_redis "order" cid toy_kept ≡ ok (some (toy_record submitted))
unfolding redis_get lookup from_dict of_value to_dict
redis_get-kept cid e = rw e refl

toy_kept-Scanned : Scanned toy_redis "order" toy_kept (toy_key ∷ [])
unfolding iter_keys
toy_kept-Scanned = record {
  returned = refl;
  only = λ key m. ("momentumab", Memᴰ.eq_of_singleton m);
  every = λ cid read. elim (Bool-cases (toy_key == record_key "order" cid)) [
    | inl same ↦ Memᴰ.head (sym ((eq_iff _ _).0 same))
    | inr other ↦ (let none_there = redis_get-missing cid other in ground arith)
  ];
}

redis_list_open_iff_example :
    (rs : List (OrderRecord Units)) × (redis_list_open toy_redis "order" toy_kept ≡ ok rs)
    × ((r : OrderRecord Units)
        → Memᴰ r rs
          ↔ (cid : String) × (redis_get toy_redis "order" cid toy_kept ≡ ok (some r))
            × (is_terminal r.state ≡ false))
redis_list_open_iff_example =
    redis_list_open_iff toy_redis "order" toy_kept toy_kept-Scanned
      (λ cid m. (some (toy_record submitted), redis_get-kept cid (Memᴰ.eq_of_singleton m)))
