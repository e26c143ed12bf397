-- ===== src/Telemetry.antt =====
-- event_saver/telemetry.py: the header of Sentry, and what is installed once.
pub mod Bounds
use Prim.Native.Char.{code}
use Prim.Native.String.{count}
use event_saver.Prelude.{
  ℕ, ◌+◌, ◌-◌, ◌*◌, String, Bool, true, false, not, ◌&&◌, ◌||◌, Option, none, some, List, [], ◌∷◌,
  any, nat_eq, leb, ◌==◌, if◌then◌else◌,
}

-- Where `int(text, 16)` is in its text: before the number, after a sign, after a first 0, after 0x,
-- within the digits, after an underscore, behind the number.
pub data Phase : Type 0 where
  leading signed after_zero prefixed digits underscored trailing : Phase

abbrev pub between : ℕ → ℕ → ℕ → Bool
between a b x = leb a x && leb x b

abbrev pub is_space : ℕ → Bool
is_space x = between 9 13 x || between 28 32 x

abbrev pub hex_digit : ℕ → Option ℕ
hex_digit x =
    if between b'0' b'9' x
    then some (x - b'0')
    else if between b'a' b'f' x
    then some (x - b'a' + 10)
    else if between b'A' b'F' x
    then some (x - b'A' + 10)
    else none

-- a digit, if it is one
abbrev pub digit_step : Option ℕ → Option (Phase × Option ℕ)
digit_step none = none
digit_step (some d) = some (digits, some d)

abbrev pub first_digit : Option ℕ → Option (Phase × Option ℕ)
first_digit none = none
first_digit (some d) = some ((if nat_eq d 0 then after_zero else digits), some d)

-- what may follow a digit
abbrev pub next_digit : ℕ → Option (Phase × Option ℕ)
next_digit x =
    if nat_eq x b'_'
    then some (underscored, none)
    else if is_space x
    then some (trailing, none)
    else digit_step (hex_digit x)

-- the next phase for a character, by its code, and the digit that it is
abbrev pub int_step : Phase → ℕ → Option (Phase × Option ℕ)
int_step leading x =
    if is_space x
    then some (leading, none)
    else if nat_eq x b'+'
    then some (signed, none)
    else first_digit (hex_digit x)
int_step signed x = first_digit (hex_digit x)
int_step after_zero x =
    if nat_eq x b'x' || nat_eq x b'X' then some (prefixed, none) else next_digit x
int_step prefixed x = if nat_eq x b'_' then some (underscored, none) else digit_step (hex_digit x)
int_step digits x = next_digit x
int_step underscored x = digit_step (hex_digit x)
int_step trailing x = if is_space x then some (trailing, none) else none

abbrev pub may_end : Phase → Bool
may_end after_zero = true
may_end digits = true
may_end trailing = true
may_end _ = false

-- `int(text, 16)` for texts of ASCII characters without `-`; `none` is its `ValueError`
unfoldable pub int16 : Phase → ℕ → String → Option ℕ
int16 p acc String.[] = if may_end p then some acc else none
int16 p acc (String.◌∷◌ c s) = elim (int_step p (code c)) [
  | none ↦ none
  | some (q, none) ↦ int16 q acc s
  | some (q, some d) ↦ int16 q (acc * 16 + d) s
]

abbrev pub into_first : String → List String → List String
into_first c [] = c ∷ []
into_first c (part ∷ parts) = Prim.Native.String.◌++◌ c part ∷ parts

-- `text.split("-")`
unfoldable pub split_dash : String → List String
split_dash String.[] = "" ∷ []
split_dash (String.◌∷◌ c s) =
    let rest = split_dash s in
    if nat_eq (code c) b'-' then "" ∷ rest else into_first (String.◌∷◌ c "") rest

pub record SpanContext : Type 0 where
  pub trace_id : ℕ
  pub span_id : ℕ
  pub is_remote : Bool
  pub is_sampled : Bool

abbrev pub is_first : String → List String → Bool
is_first s [] = false
is_first s (part ∷ parts) = part == s

abbrev pub remote_span : Option ℕ → Option ℕ → Bool → Option SpanContext
remote_span (some trace_id) (some span_id) is_sampled =
    some
      (record { trace_id = trace_id; span_id = span_id; is_remote = true; is_sampled = is_sampled })
remote_span _ _ _ = none

abbrev pub span_of_parts : List String → Option SpanContext
span_of_parts (trace ∷ span ∷ rest) =
    if nat_eq (count trace) 32 && nat_eq (count span) 16
    then remote_span (int16 leading 0 trace) (int16 leading 0 span) (is_first "1" rest)
    else none
span_of_parts _ = none

-- `SentryTracePropagator.extract`, from the values of the header: the span that is set in the
-- context, or `none` where the context is returned as it is
unfoldable pub extract : List String → Option SpanContext
unfolding int16 split_dash
extract [] = none
extract (value ∷ values) = span_of_parts (split_dash value)

-- `_disabled`, of `os.getenv("OTEL_SDK_DISABLED", "").strip().lower()`
abbrev pub is_disabled : String → Bool
is_disabled value = any (λ v. v == value) ("true" ∷ "1" ∷ "yes" ∷ [])

-- What is global in OpenTelemetry: is its own provider installed, and the propagators in their order
pub record Tracing : Type 0 where
  pub has_provider : Bool
  pub propagators : List String

unfoldable pub setup_tracing : String → Tracing → Tracing
setup_tracing value t = if is_disabled value then t else if t.has_provider then t else record {
  has_provider = true;
  propagators = "tracecontext" ∷ "baggage" ∷ "sentry-trace" ∷ [];
}

-- one middleware, unless disabled
unfoldable pub rabbit_telemetry_middlewares : String → List String
rabbit_telemetry_middlewares value =
    if is_disabled value then [] else "RabbitTelemetryMiddleware" ∷ []
