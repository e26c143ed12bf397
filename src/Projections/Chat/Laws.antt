-- ===== src/Projections/Chat/Laws.antt =====
-- The preview of `ChatEventProjection._extract_text_preview`.
use Prim.Native.String.{count}
use text.Mathlib.TextLemmas.{length-nil, length-cons}
use event_saver.Prelude.{ℕ, zero, suc, String, ◌≡◌, ◌≤◌, Option, none, some, arith}
use event_saver.Py.Value.{Value, get, original_or_self}
use event_saver.Py.Exception.{Result, ok, raise, ◌>>=◌}
use event_saver.Projections.Chat.{take_chars, message_text, preview_of, extract_text_preview}

take_chars-le : (n : ℕ) (s : String) → count (take_chars n s) ≤ n
unfolding take_chars
take_chars-le zero s = omega (arith, length-nil)
take_chars-le (suc n) String.[] = omega (arith, length-nil)
take_chars-le (suc n) (String.◌∷◌ c s) =
    omega (arith, length-cons c (take_chars n s), take_chars-le n s)

preview_of-le :
    (o : Option String) (preview : String) → preview_of o ≡ some preview → count preview ≤ 512
preview_of-le none preview e = cc
preview_of-le (some text) preview e = ground (arith, take_chars-le 512 text)

message-le :
    (r : Result Value) (preview : String)
    → (r >>= λ message. ok (preview_of (message_text message "text"))) ≡ ok (some preview)
    → count preview ≤ 512
message-le (ok message) preview e =
    preview_of-le (message_text message "text") preview (ground arith)
message-le (raise x) preview e = cc

original-le :
    (r : Result Value) (preview : String)
    → (r >>= λ original. do
      message ← get original "message"
      ok (preview_of (message_text message "text")))
      ≡ ok (some preview)
    → count preview ≤ 512
original-le (ok original) preview e = message-le (get original "message") preview e
original-le (raise x) preview e = cc

-- The preview of a message has at most 512 characters.
pub extract_text_preview-le :
    (payload : Value) (preview : String)
    → extract_text_preview payload ≡ ok (some preview)
    → count preview ≤ 512
unfolding extract_text_preview
extract_text_preview-le payload preview e = original-le (original_or_self payload) preview e
