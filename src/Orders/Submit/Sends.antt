-- ===== src/Orders/Submit/Sends.antt =====
-- What a coroutine that may send one order does to the log: nothing, or one broker call right after
-- a successful write of the order in SUBMITTED (`submit_order` of order_manager.py).
use mathlib.Core.List.{append-nil, append_assoc}
use algo_dollar.Base.{
  ◌≤◌, ◌≡◌, refl, sym, ◌∙◌, ap, Bool, true, false, [], ◌∷◌, ◌++◌, if◌then◌else◌, arith,
}
use algo_dollar.Errors.{Result, ok, err}
use algo_dollar.Lifecycle.States.{submitted}
use algo_dollar.Lifecycle.Record.{OrderRecord}
use algo_dollar.Orders.Broker.{PlaceArgs}
use algo_dollar.Orders.Exec.{save_call, place_call, Log, World, Exec, lift, continue, ◌>>=◌}
use algo_dollar.Orders.Exec.Calls.{places, places-append, IsQuiet}

-- `G` is what is known whenever the broker was called.
module _ {F : Type 0} (args : PlaceArgs F) (G : Type 0) where
  pub data Sends : Log F → Type 0 where
    nothing : {log : Log F} → places log ≡ 0 → Sends log
    once :
        {log : Log F} (before after : Log F) (r : OrderRecord F) (answered : Bool)
        → places before ≡ 0
        → places after ≡ 0
        → r.state ≡ submitted
        → r.client_order_id ≡ args.tag
        → G
        → log ≡ before ++ (save_call r, true) ∷ (place_call args, answered) ∷ after
        → Sends log

module _ {F : Type 0} {args : PlaceArgs F} {G : Type 0} where
  Sends-before : (pre log : Log F) → places pre ≡ 0 → Sends args G log → Sends args G (pre ++ log)
  Sends-before pre log z (nothing n) = nothing (places-append pre log ∙ omega arith)
  Sends-before pre log z (once before after r answered b a s c g e) =
      once (pre ++ before) after r answered (places-append pre before ∙ omega arith) a s c g
        (ap (◌++◌ pre) e ∙ sym (append_assoc pre before _))

  Sends-places : (log : Log F) → Sends args G log → places log ≤ 1
  Sends-places log (nothing n) = omega arith
  Sends-places log (once before after r answered b a s c g e) = rw e (
      omega
        (arith, places-append before ((save_call r, true) ∷ (place_call args, answered) ∷ after)))

module _ {F X : Type 0} (P : X → Type 0) (args : PlaceArgs F) (G : Type 0) where
  -- A run from a state to its outcome.
  pub record MaySend {A : Type 0} (w : World F X) (out : Result A × World F X) : Type 0 where
    pub log : Log F
    pub extends : out.1.calls ≡ w.calls ++ log
    pub sends : Sends args G log
    pub keeps : P out.1.outside

module _ {F X : Type 0} (P : X → Type 0) (args : PlaceArgs F) (G : Type 0) where
  -- The coroutine sends at most the one order, from every state with the property `P`.
  pub record IsSender {A : Type 0} (m : Exec F X A) : Type 0 where
    pub from : (w : World F X) → P w.outside → MaySend P args G w (m w)

module _ {F X : Type 0} {P : X → Type 0} {args : PlaceArgs F} {G : Type 0} where
  pub IsSender-of_quiet : {A : Type 0} (m : Exec F X A) → IsQuiet P m → IsSender P args G m
  IsSender-of_quiet m q = record {
    from = λ w p.
        let (log, e, n, k) = q.at w in
        record { log = log; extends = e; sends = nothing n; keeps = k p };
  }

  pub IsSender-if :
      {A : Type 0} (b : Bool) (m n : Exec F X A)
      → (b ≡ true → IsSender P args G m)
      → (b ≡ false → IsSender P args G n)
      → IsSender P args G (if b then m else n)
  IsSender-if true m n sm sn = sm refl
  IsSender-if false m n sm sn = sn refl

  pub MaySend-if :
      {A : Type 0} (b : Bool) (m n : Exec F X A) (w : World F X)
      → (b ≡ true → MaySend P args G w (m w))
      → (b ≡ false → MaySend P args G w (n w))
      → MaySend P args G w ((if b then m else n) w)
  MaySend-if true m n w sm sn = sm refl
  MaySend-if false m n w sm sn = sn refl

  pub IsSender-either :
      {A : Type 0} (b : Bool) (m n : Exec F X A)
      → IsSender P args G m
      → IsSender P args G n
      → IsSender P args G (if b then m else n)
  IsSender-either true m n sm sn = sm
  IsSender-either false m n sm sn = sn

module _ {F X : Type 0} {P : X → Type 0} {args : PlaceArgs F} {G : Type 0} {A B : Type 0} where
  -- A fallible value, then the rest.
  pub IsSender-lift :
      (m : Result A) (f : A → Exec F X B)
      → ((a : A) → m ≡ ok a → IsSender P args G (f a))
      → IsSender P args G (lift m >>= f)
  unfolding ◌>>=◌ lift
  IsSender-lift (ok a) f rest = record { from = (rest a refl).from }
  IsSender-lift (err e) f rest = record {
    from = λ w p. record {
      log = [];
      extends = sym (append-nil w.calls);
      sends = nothing refl;
      keeps = p;
    };
  }

  send_continue :
      (w : World F X) (r : Result A) (f : A → Exec F X B) (v : World F X) (log : Log F)
      → v.calls ≡ w.calls ++ log
      → places log ≡ 0
      → P v.outside
      → ((a : A) → r ≡ ok a → MaySend P args G v (f a v))
      → MaySend P args G w (continue r f v)
  send_continue w (err x) f v log e n p rest = record {
    log = log;
    extends = e;
    sends = nothing n;
    keeps = p;
  }
  send_continue w (ok a) f v log e n p rest =
      let s = rest a refl in
      record {
        log = log ++ s.log;
        extends = s.extends ∙ ap (λ l. l ++ s.log) e ∙ append_assoc w.calls log s.log;
        sends = Sends-before log s.log n s.sends;
        keeps = s.keeps;
      }

  -- A step that places nothing, then the rest, which may use what the step returned where.
  pub send_after :
      (m : Exec F X A) (f : A → Exec F X B) (w : World F X)
      → IsQuiet P m
      → P w.outside
      → ((a : A) → (m w).0 ≡ ok a → MaySend P args G (m w).1 (f a (m w).1))
      → MaySend P args G w ((m >>= f) w)
  unfolding ◌>>=◌
  send_after m f w q p rest =
      let (log, e, n, k) = q.at w in send_continue w (m w).0 f (m w).1 log e n (k p) rest

  pub IsSender-after :
      (m : Exec F X A) (f : A → Exec F X B)
      → IsQuiet P m
      → ((a : A) (w : World F X) → P w.outside → (m w).0 ≡ ok a → IsSender P args G (f a))
      → IsSender P args G (m >>= f)
  IsSender-after m f q rest = record {
    from = λ w p.
        let (_, _, _, k) = q.at w in
        send_after m f w q p (λ a same. (rest a w p same).from (m w).1 (k p));
  }

  end_continue :
      (r : Result A) (f : A → Exec F X B) (v : World F X)
      → P v.outside
      → ((a : A) → IsSender P args G (f a))
      → P (continue r f v).1.outside
  end_continue (err x) f v p rest = p
  end_continue (ok a) f v p rest = ((rest a).from v p).keeps

  -- A property that holds after the first step holds at the end.
  pub sender_end :
      (m : Exec F X A) (f : A → Exec F X B) (w : World F X)
      → ((a : A) → IsSender P args G (f a))
      → P (m w).1.outside
      → P ((m >>= f) w).1.outside
  unfolding ◌>>=◌
  sender_end m f w rest p = end_continue (m w).0 f (m w).1 p rest
