-- ===== src/Lifecycle/Redis/Keys.antt =====
-- The keys of `RedisOrderStore` (lifecycle.py): equal exactly where their parts are.
use Prim.Native.Char.{Char, code}
use Prim.Native.String.append
use text.Mathlib.TextLemmas.{append_cancel_left}
use algo_dollar.Base.{
  ℕ, ◌≢◌, ◌≡◌, refl, sym, ◌∙◌, ap, String, ◌<>◌, ◌==◌, eq_iff, Bool, true, false, arith,
}
use algo_dollar.Lifecycle.Redis.{record_key, trade_key}

same_test : (a b : Bool) → (a ≡ true → b ≡ true) → (b ≡ true → a ≡ true) → a ≡ b
same_test a b f g = ground arith

no_test : (a : Bool) → (a ≡ true → ⊥) → a ≡ false
no_test true f = absurd (f refl)
no_test false f = refl

-- The code of the second character.
abbrev second_code : String → ℕ
second_code String.[] = 0
second_code (String.◌∷◌ _ String.[]) = 0
second_code (String.◌∷◌ _ (String.◌∷◌ c _)) = code c

second_code_append :
    (b c : Char) (s t : String) → second_code (String.◌∷◌ b (String.◌∷◌ c s) <> t) ≡ code c
second_code_append b c s t =
    let outer : String.◌∷◌ b (String.◌∷◌ c s) <> t ≡ String.◌∷◌ b (String.◌∷◌ c s <> t) =
      append.cons b (String.◌∷◌ c s) t in
    let inner : String.◌∷◌ c s <> t ≡ String.◌∷◌ c (s <> t) = append.cons c s t in
    ap second_code (outer ∙ ap (λ u. String.◌∷◌ b u) inner)

module _ (namespace : String) where
  pub record_keys : (a b : String) → (record_key namespace a == record_key namespace b) ≡ (a == b)
  record_keys a b =
      same_test _ _
        (λ h. (eq_iff a b).1 (
          append_cancel_left ":rec:" a b
            (append_cancel_left namespace (":rec:" <> a) (":rec:" <> b) ((eq_iff _ _).0 h))))
        (λ h. (eq_iff _ _).1 (ap (record_key namespace) ((eq_iff a b).0 h)))

  pub trade_keys : (a b : String) → (trade_key namespace a == trade_key namespace b) ≡ (a == b)
  trade_keys a b =
      same_test _ _
        (λ h. (eq_iff a b).1 (
          append_cancel_left ":fill:" a b
            (append_cancel_left namespace (":fill:" <> a) (":fill:" <> b) ((eq_iff _ _).0 h))))
        (λ h. (eq_iff _ _).1 (ap (trade_key namespace) ((eq_iff a b).0 h)))

  -- A position is kept under its key in the in-memory store, behind a prefix.
  abbrev pub held_key : String → String
  held_key key = namespace <> (":pos:" <> key)

  pub held_keys : (a b : String) → (held_key a == held_key b) ≡ (a == b)
  held_keys a b =
      same_test _ _
        (λ h. (eq_iff a b).1 (
          append_cancel_left ":pos:" a b
            (append_cancel_left namespace (":pos:" <> a) (":pos:" <> b) ((eq_iff _ _).0 h))))
        (λ h. (eq_iff _ _).1 (ap held_key ((eq_iff a b).0 h)))

  -- Keys whose prefixes differ in the second character differ.
  prefixes_differ :
      (c c' : Char) (s s' a b : String)
      → code c ≢ code c'
      → (namespace <> (String.◌∷◌ ":" (String.◌∷◌ c s) <> a)
          == namespace <> (String.◌∷◌ ":" (String.◌∷◌ c' s') <> b))
        ≡ false
  prefixes_differ c c' s s' a b differ = no_test _ λ h.
      let same = append_cancel_left namespace _ _ ((eq_iff _ _).0 h) in
      differ
        (sym (second_code_append ":" c s a) ∙ ap second_code same ∙ second_code_append ":" c' s' b)

  pub record_trade_keys : (a b : String) → (record_key namespace a == trade_key namespace b) ≡ false
  record_trade_keys a b = prefixes_differ "r" "f" "ec:" "ill:" a b (omega arith)

  pub record_held_keys : (a b : String) → (record_key namespace a == held_key b) ≡ false
  record_held_keys a b = prefixes_differ "r" "p" "ec:" "os:" a b (omega arith)

  pub trade_record_keys : (a b : String) → (trade_key namespace a == record_key namespace b) ≡ false
  trade_record_keys a b = prefixes_differ "f" "r" "ill:" "ec:" a b (omega arith)

  pub trade_held_keys : (a b : String) → (trade_key namespace a == held_key b) ≡ false
  trade_held_keys a b = prefixes_differ "f" "p" "ill:" "os:" a b (omega arith)

  pub held_record_keys : (a b : String) → (held_key a == record_key namespace b) ≡ false
  held_record_keys a b = prefixes_differ "p" "r" "os:" "ec:" a b (omega arith)

  pub held_trade_keys : (a b : String) → (held_key a == trade_key namespace b) ≡ false
  held_trade_keys a b = prefixes_differ "p" "f" "os:" "ill:" a b (omega arith)
