-- ===== src/Tests/Orders.antt =====
-- Runs of the order manager over the in-memory store and a small broker.
use algo_dollar.Lifecycle.Store.{reserve, list_open, decode_open}
use algo_dollar.Lifecycle.Store.Laws.{is_reserved}
use algo_dollar.Lifecycle.Record.{to_dict}
use algo_dollar.Base.Dict.{insert, values}
use algo_dollar.Base.{
  ◌≤◌, ◌+◌, ◌≡◌, refl, true, false, not, none, some, List, [], ◌∷◌, ◌++◌, pos, ◌+ℤ◌, ◌-ℤ◌, codes_eq,
  lower, upper,
}
use algo_dollar.Base.Dict.{lookup, insert}
use algo_dollar.Base.Member.{contains}
use algo_dollar.Double.{Units, units_double}
use algo_dollar.Errors.{ok, err, other, is_ok}
use algo_dollar.Lifecycle.Store.{get, save}
use algo_dollar.Orders.Broker.{limit, txn_of_value, product_of_value}
use algo_dollar.Lifecycle.Record.{
  apply_fill, remaining_qty, from_dict, to_dict, transition, moved_to,
}
use algo_dollar.Lifecycle.States.{
  OrderState, acknowledged, partially_filled, is_blocked, is_terminal, unknown, of_value,
}
use algo_dollar.Lifecycle.Transitions.{assert_transition}
use algo_dollar.Orders.Cancel.{cancel_order, cancel_recorded, request_cancel, after_cancel}
use algo_dollar.Orders.Cancel.Confirmed.{IsConfirmed, cancel_order-IsConfirmed}
use algo_dollar.Orders.Env.{Env}
use algo_dollar.Orders.Exec.{
  World, Log, pure, lift, attempt, ask, query, call, ◌>>=◌, save_record, cancel_at_broker,
}
use algo_dollar.Orders.Exec.Calls.{IsKept, kept_nothing, places}
use algo_dollar.Orders.Fill.{
  FillReport, handle_fill, book_fill, apply_to_record, report_of, fill_id_of, position_change,
}
use algo_dollar.Orders.Fill.Booked.{IsHandled, handle_fill_once}
use algo_dollar.Orders.History.{
  Operation, submitting, recovering, cancelling, flattening, monitoring, run_operations,
  placed_once,
}
use algo_dollar.Orders.Placed.{placed_as}
use algo_dollar.Orders.Flatten.{emergency_flatten_all}
use algo_dollar.Orders.Flatten.Guarded.{Guarded, emergency_flatten_all-Guarded}
use algo_dollar.Orders.Ineligible.{PlacedNone, run_operations-PlacedNone}
use algo_dollar.Orders.Env.{Env}
use algo_dollar.Orders.Memory.{
  Outside, with_memory_store, memory-ClaimsOnce, memory_placed_once, memory-Saves,
}
use algo_dollar.Orders.Monitor.{MonitorResult, monitor_order, watch, poll, give_up, give_up_on}
use algo_dollar.Orders.Monitor.Outcome.{monitor_order_consistent}
use algo_dollar.Orders.Recover.{recover_one, recover_all, recover_sent, recover_found}
use algo_dollar.Orders.Recover.Absent.{IsAbsent, recover_all-partial}
use algo_dollar.Orders.Resolve.{get_record, find_by_broker_id, find_in_book, query_broker_for_tag}
use algo_dollar.Orders.Submit.{
  require_eligible_for_live, check_of, closing_quantity, submit_order, place_args, is_paper_broker,
  new_record,
}
use algo_dollar.Orders.Submit.Once.{IsCleared, submit_order_once}
use algo_dollar.Orders.Submit.Refused.{submit_order_stopped}
use algo_dollar.Orders.Submit.Sends.{MaySend}
use algo_dollar.Orders.Submit.Sent.{GoesThrough, submit_order_sent}
use algo_dollar.Orders.Pricing.{Signal}
use algo_dollar.Orders.Resolve.{find_blocking}
use algo_dollar.Orders.Costs.{compute_trade_risk}
use algo_dollar.Safety.Validate.{validate_order, run_gates, gates_of}
use algo_dollar.Safety.Duplicates.{check_duplicate_order}
use algo_dollar.Safety.Gates.{
  check_broker_connectivity, check_market_status, check_data_freshness, check_instrument_validity,
  check_order_validity, check_capital_availability, check_position_limit,
  check_single_stock_exposure, check_risk_limit, check_daily_loss_limit, counts_as_open,
}
use algo_dollar.Safety.KillSwitch.{
  engage_kill_switch, text, is_kill_switch_active, check_kill_switch, is_engaged, in_falsey,
}
use algo_dollar.Tests.Toy.{
  Toy, toy_switch, toy_broker, toy_env, live_broker, toy_settings, toy_signal, toy_account,
  toy_world, toy_record, world_with, toy_fill, open_env,
}

submit_order_once_example :
    MaySend
      (λ _. Unit {0})
      (place_args toy_env toy_settings toy_signal (pos 10))
      (IsCleared toy_env toy_settings
        (λ _. Unit {0})
        toy_signal
        (pos 10)
        toy_account
        toy_world.outside)
      toy_world
      (submit_order toy_env toy_settings toy_signal (pos 10) toy_account toy_world)
submit_order_once_example =
    submit_order_once toy_env toy_settings (kept_nothing toy_env) toy_signal (pos 10) toy_account
      toy_world tt

abbrev two_submissions : List (Operation Units)
two_submissions =
    submitting toy_signal (pos 10) toy_account
    ∷ recovering
    ∷ submitting toy_signal (pos 10) toy_account
    ∷ cancelling "momentumab"
    ∷ flattening false "20260105"
    ∷ []

memory_placed_once_example :
    (log : Log Units) × ((run_operations
        (with_memory_store toy_broker)
        toy_settings
        two_submissions
        toy_world).calls
      ≡ toy_world.calls ++ log)
    × (placed_as "momentumab" log ≤ 1)
memory_placed_once_example =
    memory_placed_once toy_broker toy_settings "momentumab" two_submissions toy_world

abbrev live_env : Env Units (Outside Units Toy)
live_env = with_memory_store live_broker

abbrev live_calls : List (Operation Units)
live_calls =
    submitting toy_signal (pos 10) toy_account
    ∷ recovering
    ∷ cancelling "B1"
    ∷ monitoring 2 "B1"
    ∷ []

live_broker_live : is_paper_broker live_env ≡ false
unfolding is_paper_broker codes_eq lower with_memory_store
live_broker_live = refl

live_refused : live_env.require_live_eligible ≡ err (other "not eligible")
unfolding with_memory_store
live_refused = refl

run_operations-PlacedNone_example :
    PlacedNone toy_world (run_operations live_env toy_settings live_calls toy_world)
run_operations-PlacedNone_example =
    run_operations-PlacedNone live_env toy_settings (other "not eligible") live_broker_live
      live_refused live_calls toy_world (refl, (refl, (refl, (refl, tt))))

placed_once_example :
    (log : Log Units) × ((run_operations
        (with_memory_store toy_broker)
        toy_settings
        two_submissions
        toy_world).calls
      ≡ toy_world.calls ++ log)
    × (placed_as "momentumab" log ≤ 1)
placed_once_example =
    placed_once (with_memory_store toy_broker) toy_settings "momentumab"
      (memory-ClaimsOnce toy_broker "momentumab") two_submissions toy_world

on_kept : IsKept open_env (λ x. is_kill_switch_active toy_switch x ≡ true)
unfolding is_kill_switch_active check_kill_switch is_engaged in_falsey contains engage_kill_switch
on_kept = record {
  by_reserve = λ r x p. p;
  by_save = λ r x p. p;
  by_trade = λ c f x p. p;
  by_position = λ s e c n v x p. p;
  by_quote = λ s x p. p;
  by_place = λ b x p. p;
  by_orders = λ x p. p;
  by_positions = λ x p. p;
  by_engage = λ x p. refl;
  by_cancel = λ i x p. p;
  by_status = λ i x p. p;
}

abbrev stopped : World Units Toy
stopped = record { outside = record { switch = some (text "1"); book = [] }; calls = [] }

submit_order_stopped_example :
    let v = (submit_order open_env toy_settings toy_signal (pos 10) toy_account stopped).1 in
    ((log : Log Units) × (v.calls ≡ stopped.calls ++ log) × (places log ≡ 0))
    × (is_kill_switch_active toy_switch v.outside ≡ true)
unfolding is_kill_switch_active check_kill_switch is_engaged in_falsey contains
submit_order_stopped_example =
    submit_order_stopped open_env toy_settings on_kept toy_signal (pos 10) toy_account stopped refl

abbrev quiet_world : World Units Toy
quiet_world = record { outside = record { switch = none; book = [] }; calls = [] }

abbrev absent_of : (s : OrderState) → IsAbsent open_env (toy_record s) quiet_world.outside
unfolding find_in_book
absent_of s = record { book = []; read = refl; unlisted = refl }

absent_later :
    IsAbsent open_env
      (toy_record partially_filled)
      (recover_all open_env (toy_record acknowledged ∷ []) quiet_world).1.outside
unfolding recover_all recover_one recover_sent recover_found query_broker_for_tag attempt query pure
    ◌>>=◌ lift save_record call find_in_book transition assert_transition
absent_later = record { book = []; read = refl; unlisted = refl }

recover_all-partial_example :
    let before = toy_record acknowledged ∷ [] in
    let out =
      recover_all open_env
        (before ++ toy_record partially_filled ∷ toy_record acknowledged ∷ [])
        quiet_world in
    (is_ok out.0 ≡ false) × (out.1.calls ≡ (recover_all open_env before quiet_world).1.calls)
recover_all-partial_example =
    recover_all-partial open_env (toy_record acknowledged ∷ []) (toy_record partially_filled)
      (toy_record acknowledged ∷ []) quiet_world refl absent_later

abbrev working : World Units (Outside Units Toy)
working = world_with (toy_record acknowledged)

found_working : (get_record toy_env "momentumab" working).0 ≡ ok (some (toy_record acknowledged))
unfolding get_record ask pure ◌>>=◌ toy_env with_memory_store get lookup from_dict of_value
found_working = refl

cancel_working : (cancel_order toy_env "momentumab" working).0 ≡ ok true
unfolding cancel_order cancel_recorded request_cancel after_cancel cancel_at_broker get_record ask
    pure ◌>>=◌ toy_env with_memory_store get lookup from_dict of_value lift transition
    assert_transition save_record call save moved_to attempt insert
cancel_working = refl

cancel_order-IsConfirmed_example :
    (is_blocked acknowledged ≡ false)
    × (is_terminal acknowledged ≡ false)
    × IsConfirmed toy_env
        (toy_record acknowledged)
        working
        (cancel_order toy_env "momentumab" working).1
cancel_order-IsConfirmed_example =
    cancel_order-IsConfirmed toy_env "momentumab" (toy_record acknowledged) working found_working
      cancel_working

abbrev fill_report : FillReport
fill_report = record {
  duplicate = false;
  state = partially_filled;
  filled_qty = pos 4;
  remaining = pos 6;
}

fill_working : (handle_fill toy_env "momentumab" toy_fill working).0 ≡ ok fill_report
unfolding handle_fill get_record ask pure ◌>>=◌ toy_env with_memory_store get lookup from_dict
    of_value lift transition assert_transition save_record call save moved_to attempt insert to_dict
    txn_of_value product_of_value apply_fill contains units_double ◌+ℤ◌ ◌-ℤ◌ remaining_qty codes_eq
    upper apply_to_record book_fill fill_id_of position_change report_of
    algo_dollar.Orders.Exec.record_trade algo_dollar.Orders.Exec.apply_position_delta
    algo_dollar.Lifecycle.Store.record_trade algo_dollar.Lifecycle.Store.apply_position_delta
    algo_dollar.Lifecycle.Store.shift_position algo_dollar.Lifecycle.Store.get_position
    algo_dollar.Lifecycle.Store.no_position algo_dollar.Lifecycle.Store.position_key
fill_working = refl

handle_fill_once_example :
    (is_blocked acknowledged ≡ false)
    × IsHandled toy_env
        (toy_record acknowledged)
        toy_fill
        fill_report
        working
        (handle_fill toy_env "momentumab" toy_fill working).1
handle_fill_once_example =
    handle_fill_once toy_env "momentumab" (toy_record acknowledged) toy_fill fill_report working
      found_working fill_working

-- A broker whose status call always raises.
abbrev silent_env : Env Units Toy
silent_env = record open_env { get_order_status = λ id t. (err (other "timeout"), t) }

abbrev silent_result : MonitorResult
silent_result = record {
  state = unknown;
  timed_out = true;
  poll_errors = "timeout" ∷ "timeout" ∷ [];
  is_final = false;
}

monitor_silent : (monitor_order silent_env 1 "B1" quiet_world).0 ≡ ok silent_result
unfolding monitor_order watch poll give_up give_up_on get_record ask pure attempt query ◌>>=◌
    find_by_broker_id
monitor_silent = refl

monitor_order_consistent_example : silent_result.is_final ≡ not silent_result.timed_out
monitor_order_consistent_example =
    monitor_order_consistent silent_env 1 "B1" quiet_world monitor_silent

emergency_flatten_all-Guarded_example :
    Guarded toy_env false toy_world (emergency_flatten_all toy_env false "20260105" toy_world)
emergency_flatten_all-Guarded_example =
    emergency_flatten_all-Guarded toy_env false "20260105" toy_world

abbrev limit_signal : Signal Units
limit_signal = record toy_signal { order_type = limit; price = some (pos 100) }

-- After the reservation: the in-memory store holds the record, and nobody has turned the switch on.
abbrev Reserved : Outside Units Toy → Type 0
Reserved y = (is_reserved "momentumab" y.store ≡ true) × (y.rest ≡ toy_world.outside.rest)

-- After the order was placed.
abbrev Placed : Outside Units Toy → Type 0
Placed y = (is_reserved "momentumab" y.store ≡ true) × Unit {0}

unfoldable toy_goes :
    GoesThrough toy_env toy_settings limit_signal
      (pos 10)
      toy_account
      Reserved
      Placed
      toy_world.outside
unfolding toy_env with_memory_store new_record reserve list_open decode_open values insert lookup
    is_reserved to_dict from_dict of_value require_eligible_for_live is_paper_broker codes_eq lower
    upper find_blocking compute_trade_risk units_double validate_order run_gates gates_of check_of
    closing_quantity check_kill_switch is_engaged check_broker_connectivity check_market_status
    check_data_freshness check_instrument_validity check_order_validity check_capital_availability
    check_position_limit check_single_stock_exposure check_risk_limit check_daily_loss_limit
    check_duplicate_order counts_as_open ◌+ℤ◌ ◌-ℤ◌
toy_goes = record {
  eligible = refl;
  reserved = refl;
  begins = (refl, refl);
  open_orders = new_record toy_env toy_settings limit_signal (pos 10) ∷ [];
  listed = refl;
  unblocked = refl;
  saves = memory-Saves toy_broker "momentumab" (λ b. b ≡ toy_world.outside.rest);
  is_limit = refl;
  usable = refl;
  trade_risk = some (pos 1000);
  risked = refl;
  gates = λ y (_, same). rw same refl;
  order_id = "B1";
  named = refl;
  accepts = λ y (there, _). (refl, (there, tt));
  saves_after = memory-Saves toy_broker "momentumab" (λ _. Unit);
}

submit_order_sent_example :
    let v = submit_order toy_env toy_settings limit_signal (pos 10) toy_account toy_world in
    (v.0 ≡ ok (some "B1")) × (places v.1.calls ≡ places toy_world.calls + 1)
unfolding toy_goes
submit_order_sent_example =
    submit_order_sent toy_env toy_settings limit_signal (pos 10) toy_account toy_goes toy_world refl
