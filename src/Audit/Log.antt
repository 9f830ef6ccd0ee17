-- ===== src/Audit/Log.antt =====
-- governance/audit.py: `AuditLog`, the append-only log of decision events.
use Prim.Native.Char.{Char, code}
use Prim.Native.String.{[], ◌∷◌}
use computational_governance.Prelude.{
  ℕ, suc, String, Bool, true, ◌&&◌, Option, none, some, List, ◌++◌, if◌then◌else◌, ◌==◌, ◌<>◌,
  contains, add, leb, ltb, eqb,
}
use computational_governance.Decimal.{read}
use computational_governance.Errors.{value_error, Try, ok, raise, ◌>>=◌}
use computational_governance.Audit.Events.{DecisionEvent}

-- `_events` and `_ids`
pub record AuditLog : Type 0 where
  pub events : List DecisionEvent
  pub ids : List String

abbrev pub empty_log : AuditLog
empty_log = record { events = List.[]; ids = List.[] }

-- `AuditLog.append`
unfoldable pub append_event : AuditLog → DecisionEvent → Try AuditLog
append_event self event =
    if contains self.ids event.event_id
    then raise (value_error ("duplicate audit event id " <> event.event_id))
    else ok (record {
      events = self.events ++ List.◌∷◌ event List.[];
      ids = add event.event_id self.ids;
    })

-- `AuditLog(events)`
unfoldable pub make_log : AuditLog → List DecisionEvent → Try AuditLog
unfolding append_event
make_log self List.[] = ok self
make_log self (List.◌∷◌ event events) = append_event self event >>= λ log. make_log log events

-- What follows a prefix.
unfoldable pub after_prefix : String → String → Option String
after_prefix [] s = some s
after_prefix (c ∷ p) [] = none
after_prefix (c ∷ p) (d ∷ s) = if eqb (code c) (code d) then after_prefix p s else none

abbrev pub is_digit : Char → Bool
is_digit c = leb 48 (code c) && leb (code c) 57

-- `all` of `isdigit`, over ASCII
unfoldable pub all_digits : String → Bool
all_digits [] = true
all_digits (c ∷ s) = is_digit c && all_digits s

-- `int(suffix)` where `suffix.isdigit()`
unfoldable pub digits_value : Option String → Option ℕ
unfolding all_digits
digits_value none = none
digits_value (some []) = none
digits_value (some (c ∷ s)) = if all_digits (c ∷ s) then some (read 0 (c ∷ s)) else none

-- The sequence number of an event of the trace.
unfoldable pub sequence_of : String → DecisionEvent → Option ℕ
unfolding digits_value after_prefix
sequence_of trace_id event =
    if event.trace_id == trace_id
    then digits_value (after_prefix (trace_id <> "-") event.event_id)
    else none

abbrev pub max_with : Option ℕ → ℕ → ℕ
max_with none m = m
max_with (some n) m = if ltb m n then n else m

-- `max(sequences, default=0)`
unfoldable pub max_sequence : String → List DecisionEvent → ℕ
unfolding sequence_of
max_sequence trace_id List.[] = 0
max_sequence trace_id (List.◌∷◌ event events) =
    max_with (sequence_of trace_id event) (max_sequence trace_id events)

-- `AuditLog.next_sequence`
unfoldable pub next_sequence : AuditLog → String → ℕ
unfolding max_sequence
next_sequence self trace_id = suc (max_sequence trace_id self.events)
