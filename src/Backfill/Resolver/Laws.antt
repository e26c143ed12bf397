-- ===== src/Backfill/Resolver/Laws.antt =====
-- What each answer of the users service comes to.
use event_saver.Prelude.{
  ℕ, ◌≡◌, refl, ap, ◌≢◌, Bool, true, false, Option, none, some, nat_eq, nat_eq_iff, arith,
  if◌then◌else◌,
}
use event_saver.Py.Value.{Value, get}
use event_saver.Py.Exception.{
  Result, ok, raise, type_error, value_error, users_service_unavailable, ◌>>=◌,
}
use event_saver.Env.{Env}
use event_saver.Ingest.UseCase.{new_uuid}
use event_saver.Backfill.Resolver.{
  HttpReply, transport_failure, response, malformed_id, user_of_body, resolve,
}

abbrev status_of : HttpReply → ℕ
status_of transport_failure = 0
status_of (response status body) = status

other_status :
    (reply : HttpReply) (body : Result Value) → status_of reply ≢ 404 → reply ≢ response 404 body
other_status reply body other e = other (ap status_of e)

two_hundred : ◌≢◌ {A = ℕ} 200 404
two_hundred = omega arith

module _ (env : Env) where
  -- The result of `resolve`: a user is the `id` of a body that came with status 200; that there is
  -- no such user is said by status 404 and by nothing else.
  abbrev pub IsJustified : HttpReply → Result (Option ℕ) → Type 0
  IsJustified reply (ok none) = (body : Result Value) × (reply ≡ response 404 body)
  IsJustified reply (ok (some user_id)) =
      (body : Value) × (raw_id : Value) × (reply ≡ response 200 (ok body))
      × (get body "id" ≡ ok raw_id)
      × (new_uuid env raw_id ≡ ok user_id)
  IsJustified reply (raise e) = (body : Result Value) → reply ≢ response 404 body

  malformed-IsJustified :
      (body : Value) (raw : Value) (r : Result ℕ)
      → get body "id" ≡ ok raw
      → new_uuid env raw ≡ r
      → IsJustified (response 200 (ok body)) (malformed_id r)
  malformed-IsJustified body raw (ok u) g n = (body, raw, refl, g, n)
  malformed-IsJustified body raw (raise type_error) g n = λ b. other_status _ b two_hundred
  malformed-IsJustified body raw (raise value_error) g n = λ b. other_status _ b two_hundred
  malformed-IsJustified body raw (raise x) g n = λ b. other_status _ b two_hundred

  id-IsJustified :
      (body : Value) (r : Result Value)
      → get body "id" ≡ r
      → IsJustified (response 200 (ok body)) (r >>= λ raw. malformed_id (new_uuid env raw))
  id-IsJustified body (ok raw) g = malformed-IsJustified body raw (new_uuid env raw) g refl
  id-IsJustified body (raise x) g = λ b. other_status _ b two_hundred

  body-IsJustified : (body : Result Value) → IsJustified (response 200 body) (user_of_body env body)
  unfolding user_of_body
  body-IsJustified (ok body) = id-IsJustified body (get body "id") refl
  body-IsJustified (raise x) = λ b. other_status _ b two_hundred

  status-IsJustified :
      (status : ℕ) (body : Result Value) (not_found ok_status : Bool)
      → nat_eq status 404 ≡ not_found
      → nat_eq status 200 ≡ ok_status
      → IsJustified (response status body) (
          if not_found
          then ok none
          else if ok_status
          then user_of_body env body
          else raise users_service_unavailable)
  status-IsJustified status body true o n p = (body, rw ((nat_eq_iff status 404).0 n) refl)
  status-IsJustified status body false true n p =
      rw ((nat_eq_iff status 200).0 p) (body-IsJustified body)
  status-IsJustified status body false false n p =
      λ b. other_status _ b (ground (arith, nat_eq_iff status 404))

  -- A user that `resolve` returns is the `id` of a body that came with status 200; it returns that
  -- there is none exactly when the status is 404; and a failed request and every other status or
  -- body make it raise.
  pub resolve_lem : (reply : HttpReply) → IsJustified reply (resolve env reply)
  unfolding resolve
  resolve_lem transport_failure = λ b. other_status transport_failure b (omega arith)
  resolve_lem (response status body) =
      status-IsJustified status body (nat_eq status 404) (nat_eq status 200) refl refl
