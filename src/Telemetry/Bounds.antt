-- ===== src/Telemetry/Bounds.antt =====
-- The ids that `SentryTracePropagator.extract` reads fit into the fields of a span context.
use Prim.Native.Char.{code}
use Prim.Native.String.{count}
use text.Mathlib.TextLemmas.{length-cons}
use event_saver.Prelude.{
  some_same, ℕ, zero, suc, ◌+◌, ◌*◌, ◌^◌, ◌<◌, ◌≡◌, refl, sym, String, Bool, true, false, ◌&&◌,
  ◌||◌, Option, none, some, List, [], ◌∷◌, arith, nat_eq, nat_eq_iff, leb, if-either, if◌then◌else◌,
}
use event_saver.Telemetry.{
  Phase, leading, signed, after_zero, prefixed, digits, underscored, trailing, hex_digit,
  digit_step, first_digit, next_digit, int_step, may_end, is_space, int16, SpanContext, remote_span,
  span_of_parts, split_dash, is_first, extract,
}

-- `b` times 16, `n` times over
abbrev times16 : ℕ → ℕ → ℕ
times16 zero b = b
times16 (suc n) b = times16 n (16 * b)

times16-grows : (n b x : ℕ) → x < b → x < times16 n b
times16-grows zero b x h = h
times16-grows (suc n) b x h = times16-grows n (16 * b) x (omega (arith, h))

abbrev Below : Option ℕ → Type 0
Below (some d) = d < 16
Below none = Unit

-- a digit is below 16
record IsHexDigit (o : Option ℕ) : Type 0 where
  pub below : Below o

abbrev BelowIn : Option (Phase × Option ℕ) → Type 0
BelowIn (some (q, o)) = Below o
BelowIn none = Unit

record IsDigit (o : Option (Phase × Option ℕ)) : Type 0 where
  pub below : BelowIn o

hex_digit-IsHexDigit : (x : ℕ) → IsHexDigit (hex_digit x)
hex_digit-IsHexDigit x =
    if-either IsHexDigit (leb b'0' x && leb x b'9') (λ e. record { below = ground arith })
      (λ _.
        if-either IsHexDigit (leb b'a' x && leb x b'f') (λ e. record { below = ground arith })
          (λ _.
            if-either IsHexDigit (leb b'A' x && leb x b'F') (λ e. record { below = ground arith })
              (λ _. record { below = tt })))

digit_step-IsDigit : (o : Option ℕ) → IsHexDigit o → IsDigit (digit_step o)
digit_step-IsDigit none h = record { below = tt }
digit_step-IsDigit (some d) h = record { below = h.below }

first_digit-IsDigit : (o : Option ℕ) → IsHexDigit o → IsDigit (first_digit o)
first_digit-IsDigit none h = record { below = tt }
first_digit-IsDigit (some d) h = record { below = h.below }

skip-IsDigit : (q : Phase) → IsDigit (some (q, none))
skip-IsDigit q = record { below = tt }

next_digit-IsDigit : (x : ℕ) → IsDigit (next_digit x)
next_digit-IsDigit x =
    if-either IsDigit (nat_eq x b'_') (λ _. skip-IsDigit underscored)
      (λ _.
        if-either IsDigit (is_space x) (λ _. skip-IsDigit trailing)
          (λ _. digit_step-IsDigit (hex_digit x) (hex_digit-IsHexDigit x)))

int_step-IsDigit : (p : Phase) (x : ℕ) → IsDigit (int_step p x)
int_step-IsDigit leading x =
    if-either IsDigit (is_space x) (λ _. skip-IsDigit leading)
      (λ _.
        if-either IsDigit (nat_eq x b'+') (λ _. skip-IsDigit signed)
          (λ _. first_digit-IsDigit (hex_digit x) (hex_digit-IsHexDigit x)))
int_step-IsDigit signed x = first_digit-IsDigit (hex_digit x) (hex_digit-IsHexDigit x)
int_step-IsDigit after_zero x =
    if-either IsDigit (nat_eq x b'x' || nat_eq x b'X') (λ _. skip-IsDigit prefixed)
      (λ _. next_digit-IsDigit x)
int_step-IsDigit prefixed x =
    if-either IsDigit (nat_eq x b'_') (λ _. skip-IsDigit underscored)
      (λ _. digit_step-IsDigit (hex_digit x) (hex_digit-IsHexDigit x))
int_step-IsDigit digits x = next_digit-IsDigit x
int_step-IsDigit underscored x = digit_step-IsDigit (hex_digit x) (hex_digit-IsHexDigit x)
int_step-IsDigit trailing x =
    if-either IsDigit (is_space x) (λ _. skip-IsDigit trailing) (λ _. record { below = tt })

-- what is read is below the bound
abbrev ReadsBelow : ℕ → Option ℕ → Type 0
ReadsBelow b none = Unit
ReadsBelow b (some n) = n < b

int16-ReadsBelow :
    (p : Phase) (acc b : ℕ) (s : String)
    → acc < b
    → ReadsBelow (times16 (count s) b) (int16 p acc s)
unfolding int16
int16-ReadsBelow p acc b String.[] h = ended (may_end p)
  where
    ended : (e : Bool) → ReadsBelow (times16 (count "") b) (if e then some acc else none)
    ended true = times16-grows (count "") b acc h
    ended false = tt
int16-ReadsBelow p acc b (String.◌∷◌ c s) h = rw (length-cons c s) (
    stepped (int_step p (code c)) (int_step-IsDigit p (code c))
      (λ q acc' small. int16-ReadsBelow q acc' (16 * b) s small))
  where
    stepped :
        (o : Option (Phase × Option ℕ))
        → IsDigit o
        → ((q : Phase) (acc' : ℕ)
            → acc' < 16 * b
            → ReadsBelow (times16 (count s) (16 * b)) (int16 q acc' s))
        → ReadsBelow (times16 (count s) (16 * b)) (elim o [
          | none ↦ none
          | some (q, none) ↦ int16 q acc s
          | some (q, some d) ↦ int16 q (acc * 16 + d) s
        ])
    stepped none digit rest = tt
    stepped (some (q, none)) digit rest = rest q acc (omega (arith, h))
    stepped (some (q, some d)) digit rest = rest q (acc * 16 + d) (omega (arith, h, digit.below))

int16-fits : (n m : ℕ) (s : String) → count s ≡ n → int16 leading 0 s ≡ some m → m < times16 n 1
int16-fits n m s e h =
    rw (sym e) (of_result (int16 leading 0 s) h (int16-ReadsBelow leading 0 1 s (omega arith)))
  where
    of_result :
        (o : Option ℕ) → o ≡ some m → ReadsBelow (times16 (count s) 1) o → m < times16 (count s) 1
    of_result none e' r = cc
    of_result (some k) e' r = rw (sym (some_same k m e')) r

abbrev Fits : Option SpanContext → Type 0
Fits none = Unit
Fits (some c) = (c.trace_id < 2 ^ 128) × (c.span_id < 2 ^ 64)

parts-Fits : (parts : List String) → Fits (span_of_parts parts)
parts-Fits [] = tt
parts-Fits (trace ∷ []) = tt
parts-Fits (trace ∷ span ∷ rest) =
    by_lengths (nat_eq (count trace) 32) (nat_eq (count span) 16) refl refl
  where
    by_ids :
        (t p : Option ℕ)
        → int16 leading 0 trace ≡ t
        → int16 leading 0 span ≡ p
        → count trace ≡ 32
        → count span ≡ 16
        → Fits (remote_span t p (is_first "1" rest))
    by_ids none p et ep lt lp = tt
    by_ids (some t) none et ep lt lp = tt
    by_ids (some t) (some p) et ep lt lp = (int16-fits 32 t trace lt et, int16-fits 16 p span lp ep)

    by_lengths :
        (x y : Bool)
        → nat_eq (count trace) 32 ≡ x
        → nat_eq (count span) 16 ≡ y
        → Fits (
            if x && y
            then remote_span (int16 leading 0 trace) (int16 leading 0 span) (is_first "1" rest)
            else none)
    by_lengths false y ex ey = tt
    by_lengths true false ex ey = tt
    by_lengths true true ex ey =
        by_ids (int16 leading 0 trace) (int16 leading 0 span) refl refl
          ((nat_eq_iff (count trace) 32).0 ex) ((nat_eq_iff (count span) 16).0 ey)

-- Whatever the header says, the ids of the span that `extract` reads from it fit into the 128 and 64
-- bits of a span context, so that they are written with 32 and 16 hexadecimal digits.
pub extract_fits :
    (values : List String) (c : SpanContext)
    → extract values ≡ some c
    → (c.trace_id < 2 ^ 128) × (c.span_id < 2 ^ 64)
unfolding extract
extract_fits [] c h = cc
extract_fits (value ∷ values) c h =
    of_span (span_of_parts (split_dash value)) h (parts-Fits (split_dash value))
  where
    of_span :
        (o : Option SpanContext)
        → o ≡ some c
        → Fits o
        → (c.trace_id < 2 ^ 128) × (c.span_id < 2 ^ 64)
    of_span none e f = cc
    of_span (some d) e f = rw (sym (some_same d c e)) f
