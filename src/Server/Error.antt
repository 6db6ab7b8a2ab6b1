-- ===== src/Server/Error.antt =====
-- server/src/config/error.rs: the error of a handler, and the response that it becomes.
use localsend_uyava.Prelude.{ℕ, leb, List, [], ◌∷◌, Option, none, some, Text, ascii, if◌then◌else◌}

-- `status` is the number of a `StatusCode`, and `error` the text of an `anyhow::Error`.
pub record AppError : Type 0 where
  pub status : ℕ
  pub message : Option Text
  pub error : Option Text

unfoldable pub status : ℕ → Option Text → AppError
status code message = record { status = code; message = message; error = none }

-- What `?` makes of another error.
unfoldable pub from : Text → AppError
from err = record { status = 500; message = none; error = some err }

-- The crate axum: the response of a status, and of a status with a text.
pub record Axum : Type 1 where
  pub Response : Type 0
  pub of_status : ℕ → Response
  pub of_text : ℕ → Text → Response

abbrev or_default : Text → Option Text → Text
or_default d none = d
or_default d (some t) = t

-- The two texts of the line that is logged, if one is, and the response.
unfoldable pub into_response : (axum : Axum) → AppError → List (Text × Text) × axum.Response
into_response axum e = (
  if leb 500 e.status
      then (or_default (ascii "(no message)") e.message, or_default (ascii "(no error)") e.error)
        ∷ []
      else [],
  elim e.message [ none ↦ axum.of_status e.status | some message ↦ axum.of_text e.status message ],
)
