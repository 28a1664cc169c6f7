-- ===== src/Go/Error.antt =====
-- Go errors: those of `github.com/pkg/errors`, the answers of the RabbitMQ API, and any other.
use provider_rabbitmq.Prelude.{ℕ, Option, none, some, Str}

-- `rabbithole.ErrorResponse`.
pub record ErrorResponse : Type 0 where
  pub status_code : ℕ
  pub message : Str
  pub reason : Str

pub data Error : Type 0 where
  -- errors.New(message) and errors.Errorf
  new : Str → Error
  -- errors.Wrap(cause, message)
  wrap : Error → Str → Error
  response : ErrorResponse → Error
  -- an error of a library, with its text
  foreign : Str → Error

-- `errors.As(err, &target)` for a target of type ErrorResponse: the first one in the chain of
-- wrapped errors.
unfoldable pub as_response : Error → Option ErrorResponse
as_response (new _) = none
as_response (wrap e _) = as_response e
as_response (response r) = some r
as_response (foreign _) = none
