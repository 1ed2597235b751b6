-- ===== src/Lifecycle/Tags.antt =====
-- Client order ids of lifecycle.py, which are the broker tags. `uuid.uuid4().hex` and the digest
-- `sha256(...).hexdigest()` are arguments.
use Prim.Native.String.append
use text.Mathlib.TextPositions.{starts_with_of_prefix}
use algo_dollar.Base.{
  ℕ, zero, suc, ◌≤◌, String, ◌<>◌, ◌≡◌, refl, ap, sym, ◌∙◌, true, starts_with, or_text, take_text,
  text_length, text_length-take_text, arith,
}

abbrev pub tag_max_len : ℕ
tag_max_len = 20

abbrev pub strategy_prefix_len : ℕ
strategy_prefix_len = 8

-- `strategy_tag_prefix`, at its default length
unfoldable pub strategy_tag_prefix : String → String
strategy_tag_prefix strategy = take_text strategy_prefix_len (or_text strategy "unknown")

-- `make_client_order_id`; the nonce is the hexadecimal text of a fresh UUID.
unfoldable pub make_client_order_id : (nonce strategy : String) → String
make_client_order_id nonce strategy = take_text tag_max_len (strategy_tag_prefix strategy <> nonce)

-- `"|".join(parts)`
unfoldable pub join_parts : String → String → String → String → String → String
join_parts a b c d e = a <> ("|" <> (b <> ("|" <> (c <> ("|" <> (d <> ("|" <> e)))))))

-- `deterministic_client_order_id` of the five parts that the flatten passes, under its prefix.
unfoldable pub deterministic_client_order_id :
    (sha256_hex : String → String) → (prefix a b c d e : String) → String
unfolding join_parts
deterministic_client_order_id sha256_hex prefix a b c d e =
    take_text tag_max_len (prefix <> sha256_hex (join_parts a b c d e))

-- A text cut at `k` is a prefix of anything that begins with it and is cut no earlier.
prefix_of_take :
    (k n : ℕ) (p r : String)
    → k ≤ n
    → (u : String) × (take_text k p <> u ≡ take_text n (take_text k p <> r))
prefix_of_take zero n p r h = (take_text n r, append.nil _ ∙ ap (take_text n) (sym (append.nil r)))
prefix_of_take (suc k) zero p r h = absurd (omega arith)
prefix_of_take (suc k) (suc n) String.[] r h =
    (take_text (suc n) r, append.nil _ ∙ ap (take_text (suc n)) (sym (append.nil r)))
prefix_of_take (suc k) (suc n) (String.◌∷◌ c p) r h =
    let (u, e) = prefix_of_take k n p r (omega arith) in
    (
      u,
      append.cons c (take_text k p) u
          ∙ ap (String.◌∷◌ c) e
          ∙ ap (take_text (suc n)) (sym (append.cons c (take_text k p) r)),
    )

take_text-take_text : (k n : ℕ) (s : String) → k ≤ n → take_text k (take_text n s) ≡ take_text k s
take_text-take_text zero n s h = refl
take_text-take_text (suc k) zero s h = absurd (omega arith)
take_text-take_text (suc k) (suc n) String.[] h = refl
take_text-take_text (suc k) (suc n) (String.◌∷◌ c s) h =
    ap (String.◌∷◌ c) (take_text-take_text k n s (omega arith))

-- A client order id fits the broker's 20 characters, and its first 8 begin with the strategy prefix
-- that the duplicate gate looks for.
pub make_client_order_id-fits :
    (nonce strategy : String)
    → let tag = make_client_order_id nonce strategy in
      (text_length tag ≤ tag_max_len)
      × (starts_with (take_text strategy_prefix_len tag) (strategy_tag_prefix strategy) ≡ true)
unfolding make_client_order_id strategy_tag_prefix
make_client_order_id-fits nonce strategy =
    let p = or_text strategy "unknown" in
    let whole = take_text 8 p <> nonce in
    let (u, e) = prefix_of_take 8 8 p nonce (omega arith) in
    (
      text_length-take_text 20 whole,
      starts_with_of_prefix (take_text 8 p) (take_text 8 (take_text 20 whole))
          (u, e ∙ sym (take_text-take_text 8 20 whole (omega arith))),
    )
