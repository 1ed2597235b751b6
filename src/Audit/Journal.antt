-- ===== src/Audit/Journal.antt =====
-- `AuditJournal` of audit.py: one record is offered to every sink, and a sink that raises is noted.
-- A sink is a parameter, a class name with a `write` that may raise; `S` is the state behind all the
-- sinks. A record is an object, which a sink may keep: it has an address, under which the state holds
-- its fields. The log lists the sinks that were written to, with whether `write` returned.
use mathlib.Core.List.{append-nil, append_assoc}
use algo_dollar.Base.{
  ℕ, nat_eq, sym, ap, ◌∙◌, String, ◌<>◌, ◌≡◌, ◌≢◌, refl, Bool, some, List, [], ◌∷◌, ◌++◌, map,
  if◌then◌else◌, arith,
}
use algo_dollar.Errors.{Result, ok, err, message, is_ok}
use algo_dollar.Audit.{ExecutionAuditRecord}

pub record AuditSink (F D S : Type 0) : Type 0 where
  pub class_name : String
  -- The object, and what its fields are at the time.
  pub write : ℕ → ExecutionAuditRecord F D → S → Result (Unit {0}) × S

-- The records by address, and the state behind the sinks, with the writes so far.
pub record Written (F D S : Type 0) : Type 0 where
  pub objects : ℕ → ExecutionAuditRecord F D
  pub outside : S
  pub log : List (String × Bool)

-- `"; ".join(errors)`
abbrev pub join_errors : List String → String
join_errors [] = ""
join_errors (t ∷ []) = t
join_errors (t ∷ u ∷ ts) = t <> ("; " <> join_errors (u ∷ ts))

module _ {F D : Type 0} where
  -- `InMemoryAuditSink.write`: the list of the objects is the state.
  unfoldable pub memory_sink : AuditSink F D (List ℕ)
  memory_sink = record {
    class_name = "InMemoryAuditSink";
    write = λ address rec records. (ok tt, records ++ address ∷ []);
  }

  -- `InMemoryAuditSink.records`, as its queries read them.
  abbrev pub records_of : (ℕ → ExecutionAuditRecord F D) → List ℕ → List (ExecutionAuditRecord F D)
  records_of objects addresses = map objects addresses

  -- An assignment to the fields of one object.
  abbrev pub assign :
      (ℕ → ExecutionAuditRecord F D) → ℕ → ExecutionAuditRecord F D → ℕ → ExecutionAuditRecord F D
  assign objects address rec a = if nat_eq a address then rec else objects a

  -- `if errors: rec.sink_error = ...`
  abbrev pub with_errors : List String → ExecutionAuditRecord F D → ExecutionAuditRecord F D
  with_errors [] rec = rec
  with_errors (e ∷ es) rec = record rec { sink_error = some (join_errors (e ∷ es)) }

module _ {F D S : Type 0} where
  -- `f"{type(sink).__name__}: {exc!r}"`
  abbrev pub sink_failure : AuditSink F D S → Result (Unit {0}) → List String
  sink_failure sink (ok _) = []
  sink_failure sink (err e) = (sink.class_name <> (": " <> message e)) ∷ []

  -- `for sink in self._sinks:`, with `errors`
  unfoldable pub write_all :
      List (AuditSink F D S) → ℕ → List String → Written F D S → List String × Written F D S
  write_all [] address errors w = (errors, w)
  write_all (sink ∷ sinks) address errors w =
      let (outcome, outside) = sink.write address (w.objects address) w.outside in
      write_all sinks address (errors ++ sink_failure sink outcome)
        (record w { outside = outside; log = w.log ++ (sink.class_name, is_ok outcome) ∷ [] })

  -- `AuditJournal.record`, which returns the object that it was given.
  unfoldable pub record_attempt : List (AuditSink F D S) → ℕ → Written F D S → ℕ × Written F D S
  unfolding write_all
  record_attempt sinks address w =
      let (errors, w') = write_all sinks address [] w in
      let rec = with_errors errors (w'.objects address) in
      (address, record w' { objects = assign w'.objects address rec })

module _ {F D S : Type 0} where
  -- The sinks in turn, each given the record: the state after them, whether each returned, and what
  -- the failures say.
  abbrev pub written_to : List (AuditSink F D S) → ℕ → ExecutionAuditRecord F D → S → S
  written_to [] address rec s = s
  written_to (sink ∷ sinks) address rec s =
      written_to sinks address rec (sink.write address rec s).1

  abbrev pub outcomes_of :
      List (AuditSink F D S) → ℕ → ExecutionAuditRecord F D → S → List (String × Bool)
  outcomes_of [] address rec s = []
  outcomes_of (sink ∷ sinks) address rec s =
      (sink.class_name, is_ok (sink.write address rec s).0)
      ∷ outcomes_of sinks address rec (sink.write address rec s).1

  abbrev pub failures_of : List (AuditSink F D S) → ℕ → ExecutionAuditRecord F D → S → List String
  failures_of [] address rec s = []
  failures_of (sink ∷ sinks) address rec s =
      sink_failure sink (sink.write address rec s).0
      ++ failures_of sinks address rec (sink.write address rec s).1

-- What a call of `record` has done: each sink was offered the record as it was given, in turn, and
-- then the object holds, if no write raised, what it held, and else that with a `sink_error` of all
-- the failures, in order.
pub record IsRecorded {F D S : Type 0} (sinks : List (AuditSink F D S)) (address : ℕ)
    (w w' : Written F D S) : Type 0 where
  pub logged : w'.log ≡ w.log ++ outcomes_of sinks address (w.objects address) w.outside
  pub written : w'.outside ≡ written_to sinks address (w.objects address) w.outside
  pub clean :
      failures_of sinks address (w.objects address) w.outside ≡ []
      → w'.objects address ≡ w.objects address
  pub noted :
      failures_of sinks address (w.objects address) w.outside ≢ []
      → w'.objects address ≡ record (w.objects address) {
        sink_error = some (join_errors (failures_of sinks address (w.objects address) w.outside));
      }
  pub others : (a : ℕ) → a ≢ address → w'.objects a ≡ w.objects a

module _ {F D S : Type 0} where
  write_all-errors :
      (sinks : List (AuditSink F D S)) (address : ℕ) (errors : List String) (w : Written F D S)
      → (write_all sinks address errors w).0
        ≡ errors ++ failures_of sinks address (w.objects address) w.outside
  unfolding write_all
  write_all-errors [] address errors w = sym (append-nil errors)
  write_all-errors (sink ∷ sinks) address errors w =
      write_all-errors sinks address _ _ ∙ append_assoc errors _ _

  write_all-log :
      (sinks : List (AuditSink F D S)) (address : ℕ) (errors : List String) (w : Written F D S)
      → (write_all sinks address errors w).1.log
        ≡ w.log ++ outcomes_of sinks address (w.objects address) w.outside
  unfolding write_all
  write_all-log [] address errors w = sym (append-nil w.log)
  write_all-log (sink ∷ sinks) address errors w =
      write_all-log sinks address _ _ ∙ append_assoc w.log _ _

  write_all-outside :
      (sinks : List (AuditSink F D S)) (address : ℕ) (errors : List String) (w : Written F D S)
      → (write_all sinks address errors w).1.outside
        ≡ written_to sinks address (w.objects address) w.outside
  unfolding write_all
  write_all-outside [] address errors w = refl
  write_all-outside (sink ∷ sinks) address errors w = write_all-outside sinks address _ _

  write_all-objects :
      (sinks : List (AuditSink F D S)) (address : ℕ) (errors : List String) (w : Written F D S)
      → (write_all sinks address errors w).1.objects ≡ w.objects
  unfolding write_all
  write_all-objects [] address errors w = refl
  write_all-objects (sink ∷ sinks) address errors w = write_all-objects sinks address _ _

module _ {F D : Type 0} where
  with_errors-noted :
      (errors : List String) (rec : ExecutionAuditRecord F D)
      → errors ≢ []
      → with_errors errors rec ≡ record rec { sink_error = some (join_errors errors) }
  with_errors-noted [] rec some_error = absurd (some_error refl)
  with_errors-noted (e ∷ es) rec some_error = refl

  assign_self :
      (objects : ℕ → ExecutionAuditRecord F D) (address : ℕ) (rec : ExecutionAuditRecord F D)
      → assign objects address rec address ≡ rec
  assign_self objects address rec = ground arith

  assign_other :
      (objects : ℕ → ExecutionAuditRecord F D) (address : ℕ) (rec : ExecutionAuditRecord F D)
      (a : ℕ)
      → a ≢ address
      → assign objects address rec a ≡ objects a
  assign_other objects address rec a h = ground arith

module _ {F D S : Type 0} where
  -- `record` offers the record, as it was given, to every sink once and in order, whichever of them
  -- raise. If none raised the object is as it was, and else it has, and it alone, a `sink_error` that
  -- joins what all the failures say, in order; a sink that keeps the object shows it too.
  pub record_attempt-IsRecorded :
      (sinks : List (AuditSink F D S)) (address : ℕ) (w : Written F D S)
      → IsRecorded sinks address w (record_attempt sinks address w).1
  unfolding record_attempt
  record_attempt-IsRecorded sinks address w =
      let rec = w.objects address in
      let w' = (write_all sinks address [] w).1 in
      let kept : w'.objects ≡ w.objects = write_all-objects sinks address [] w in
      let held : assign w'.objects address
            (with_errors (write_all sinks address [] w).0 (w'.objects address)) address
          ≡ with_errors (failures_of sinks address rec w.outside) rec =
        assign_self w'.objects address _
        ∙ ap (λ es. with_errors es (w'.objects address)) (write_all-errors sinks address [] w)
        ∙ ap
            (λ (o : ℕ → ExecutionAuditRecord F D).
              with_errors (failures_of sinks address rec w.outside) (o address))
            kept in
      record {
        logged = write_all-log sinks address [] w;
        written = write_all-outside sinks address [] w;
        clean = λ none_failed. held ∙ ap (λ es. with_errors es rec) none_failed;
        noted = λ failed. held ∙ with_errors-noted _ rec failed;
        others = λ a other.
            assign_other w'.objects address _ a other
            ∙ ap (λ (o : ℕ → ExecutionAuditRecord F D). o a) kept;
      }
