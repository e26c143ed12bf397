-- ===== src/Backfill/Resolver.antt =====
-- event_saver/adapters/users_client.py
pub mod Laws
use event_saver.Prelude.{ℕ, String, Bool, true, false, Option, none, some, nat_eq, if◌then◌else◌}
use event_saver.Py.Value.{Value, get}
use event_saver.Py.Exception.{
  Exception, Result, ok, raise, value_error, type_error, users_service_unavailable, ◌>>=◌,
}
use event_saver.Env.{Env}
use event_saver.Ingest.UseCase.{new_uuid}

-- What `httpx` gives for the request: an `HTTPError`, or a status with what `response.json()`
-- gives (a text that is no JSON makes it raise `ValueError`).
pub data HttpReply : Type 0 where
  transport_failure : HttpReply
  response : ℕ → Result Value → HttpReply

-- `except (TypeError, ValueError)`: what else was raised goes on
abbrev pub malformed_id : Result ℕ → Result (Option ℕ)
malformed_id (ok user_id) = ok (some user_id)
malformed_id (raise type_error) = raise users_service_unavailable
malformed_id (raise value_error) = raise users_service_unavailable
malformed_id (raise e) = raise e

module _ (env : Env) where
  unfoldable pub user_of_body : Result Value → Result (Option ℕ)
  unfolding new_uuid
  user_of_body body = do json ← body; raw_id ← get json "id"; malformed_id (new_uuid env raw_id)

  -- `UsersHttpResolver.resolve`, from the reply to its request
  unfoldable pub resolve : HttpReply → Result (Option ℕ)
  unfolding user_of_body
  resolve transport_failure = raise users_service_unavailable
  resolve (response status body) =
      if nat_eq status 404
      then ok none
      else if nat_eq status 200
      then user_of_body body
      else raise users_service_unavailable
