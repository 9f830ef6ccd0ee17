-- ===== src/Audit/Sequence.antt =====
-- governance/audit.py: the ids of the log, and those from `next_sequence` on.
use Prim.Native.String.append
use computational_governance.Prelude.{
  ℕ, zero, suc, ◌/◌, ◌%◌, ◌≤◌, String, ◌≡◌, ◌≢◌, refl, sym, ap, ◌∙◌, inl, inr, true, false, ◌&&◌,
  some, arith, ◌==◌, ◌<>◌, In, contains, List, [], ◌∷◌, str_dec, Bool-cases,
}
use computational_governance.Decimal.{read, digit, digits, str, zero_fill, pad4}
use computational_governance.Decimal.Injective.{read-pad4}
use computational_governance.Audit.Events.{DecisionEvent}
use computational_governance.Audit.Log.{
  AuditLog, after_prefix, all_digits, digits_value, sequence_of, max_sequence, next_sequence,
}

after_prefix-append : (p s : String) → after_prefix p (p <> s) ≡ some s
unfolding after_prefix
after_prefix-append String.[] s = ap some (append.nil s)
after_prefix-append (String.◌∷◌ c p) s =
    ap (after_prefix (String.◌∷◌ c p)) (append.cons c p s) ∙ ground (arith, after_prefix-append p s)

all_digits-append : (s t : String) → all_digits (s <> t) ≡ (all_digits s && all_digits t)
unfolding all_digits
all_digits-append String.[] t = ap all_digits (append.nil t)
all_digits-append (String.◌∷◌ c s) t =
    ap all_digits (append.cons c s t) ∙ ground (arith, all_digits-append s t)

all_digits-digit : (d : ℕ) → all_digits (digit d) ≡ true
unfolding all_digits
all_digits-digit zero = refl
all_digits-digit (suc zero) = refl
all_digits-digit (suc (suc zero)) = refl
all_digits-digit (suc (suc (suc zero))) = refl
all_digits-digit (suc (suc (suc (suc zero)))) = refl
all_digits-digit (suc (suc (suc (suc (suc zero))))) = refl
all_digits-digit (suc (suc (suc (suc (suc (suc zero)))))) = refl
all_digits-digit (suc (suc (suc (suc (suc (suc (suc zero))))))) = refl
all_digits-digit (suc (suc (suc (suc (suc (suc (suc (suc zero)))))))) = refl
all_digits-digit (suc (suc (suc (suc (suc (suc (suc (suc (suc d))))))))) = refl

all_digits-digits : (fuel n : ℕ) → all_digits (digits fuel n) ≡ true
unfolding digits
all_digits-digits zero n = unfold all_digits in refl
all_digits-digits (suc fuel) n = ground (
  arith,
  all_digits-digit n,
  all_digits-digit (n % 10),
  all_digits-digits fuel (n / 10),
  all_digits-append (digits fuel (n / 10)) (digit (n % 10)),
)

all_digits-pad4 : (n : ℕ) → all_digits (pad4 n) ≡ true
unfolding pad4 str zero_fill
all_digits-pad4 n = ground (
  arith,
  all_digits-digits (suc n) n,
  all_digits-append "000" (digits (suc n) n),
  all_digits-append "00" (digits (suc n) n),
  all_digits-append "0" (digits (suc n) n),
  zeros,
)
  where
    zeros : (all_digits "000" ≡ true) × (all_digits "00" ≡ true) × (all_digits "0" ≡ true)
    zeros = unfold all_digits in (refl, refl, refl)

zero_printed : (pad4 0 == "") ≡ false
unfolding pad4 str str_dec
zero_printed = refl

pad4_nonempty : (n : ℕ) → pad4 n ≢ ""
pad4_nonempty n h =
    ground (arith, zero_printed, sym (ap pad4 (sym (read-pad4 n) ∙ ap (read 0) h)) ∙ h)

digits_value-some :
    (s : String) → s ≢ "" → all_digits s ≡ true → digits_value (some s) ≡ some (read 0 s)
unfolding digits_value
digits_value-some String.[] h e = absurd (h refl)
digits_value-some (String.◌∷◌ c s) h e = rw e refl

-- An event of the trace under the id of number n is read as n.
sequence_of-id :
    (trace_id : String) (event : DecisionEvent) (n : ℕ)
    → event.trace_id ≡ trace_id
    → event.event_id ≡ (trace_id <> "-") <> pad4 n
    → sequence_of trace_id event ≡ some n
unfolding sequence_of
sequence_of-id trace_id event n own named = ground (
  arith,
  ap (λ (s : String). digits_value (after_prefix (trace_id <> "-") s)) named
      ∙ ap digits_value (after_prefix-append (trace_id <> "-") (pad4 n))
      ∙ digits_value-some (pad4 n) (pad4_nonempty n) (all_digits-pad4 n)
      ∙ ap some (read-pad4 n),
)

sequence_of-le :
    (trace_id : String) (event : DecisionEvent) (n : ℕ) (events : List DecisionEvent)
    → sequence_of trace_id event ≡ some n
    → In event events
    → n ≤ max_sequence trace_id events
unfolding max_sequence
sequence_of-le trace_id event n [] h m = absurd m
sequence_of-le trace_id event n (x ∷ xs) h (inl e) = ground (arith, ap (sequence_of trace_id) e)
sequence_of-le trace_id event n (x ∷ xs) h (inr m) =
    ground (arith, sequence_of-le trace_id event n xs h m)

-- The ids of a log are those of its events.
pub record IsConsistent (self : AuditLog) : Type 0 where
  pub known :
      (k : String)
      → contains self.ids k ≡ true
      → (event : DecisionEvent) × In event self.events × (event.event_id ≡ k)

-- The ids that start with the trace's name belong to events of the trace.
abbrev pub Owns : String → DecisionEvent → Type 0
Owns trace_id event =
    (s : String) → event.event_id ≡ (trace_id <> "-") <> s → event.trace_id ≡ trace_id

-- In a log whose ids are those of its events, and in which an id that starts with the name of the
-- trace belongs to the trace, no id from `next_sequence` on is in use.
pub next_sequence_fresh :
    (self : AuditLog) (trace_id : String) (n : ℕ)
    → IsConsistent self
    → ((event : DecisionEvent) → In event self.events → Owns trace_id event)
    → next_sequence self trace_id ≤ n
    → contains self.ids ((trace_id <> "-") <> pad4 n) ≡ false
unfolding next_sequence
next_sequence_fresh self trace_id n w owns above =
    elim (Bool-cases (contains self.ids ((trace_id <> "-") <> pad4 n))) [
      | inr absent ↦ absent
      | inl present ↦
          let (event, stored, named) = w.known ((trace_id <> "-") <> pad4 n) present in
          absurd (
            omega (
              arith,
              sequence_of-le trace_id event n self.events
                  (sequence_of-id trace_id event n (owns event stored (pad4 n) named) named) stored,
            ))
    ]
