-- ===== src/Http.antt =====
-- Replies of the handlers, and steps that may end a handler.
use drasl.Prelude.{ℕ, Option, none, some, Bytes}
use drasl.Errors.{Error, Result, ok, err, text}
use drasl.Flow.{Exec, stop, pure}

-- `ErrorResponse` of common.go
pub record ErrorResponse : Type 0 where
  pub path : Option Bytes
  pub error : Option Error
  pub error_message : Option Error

-- How a handler ends: with an error for `HandleError`, or with a response.
pub data Reply (A : Type 0) : Type 0 where
  -- `return err`
  failed : Error → Reply A
  -- `return nil` with no response written
  silent : Reply A
  -- a panic, on which the connection is closed
  panicked : Reply A
  json : ℕ → A → Reply A
  json_error : ℕ → ErrorResponse → Reply A
  no_content : ℕ → Reply A
  -- the body of another server's response
  blob : ℕ → Bytes → Reply A

abbrev pub status_ok : ℕ
status_ok = 200

abbrev pub status_no_content : ℕ
status_no_content = 204

abbrev pub status_bad_request : ℕ
status_bad_request = 400

abbrev pub status_unauthorized : ℕ
status_unauthorized = 401

abbrev pub status_forbidden : ℕ
status_forbidden = 403

abbrev pub status_not_found : ℕ
status_not_found = 404

-- `if err != nil { return err }`
abbrev pub try : {S B A : Type 0} → Result A → Exec S (Reply B) A
try (ok a) = pure a
try (err e) = stop (failed e)

-- The same at a call that gives no value.
abbrev pub check : {S B : Type 0} → Option Error → Exec S (Reply B) (Unit {0})
check none = pure tt
check (some e) = stop (failed e)

abbrev pub forbidden_operation : Error
forbidden_operation = text "ForbiddenOperationException"

-- `invalidCredentialsBlob` and `invalidAccessTokenBlob` of auth.go
abbrev pub invalid_credentials : ErrorResponse
invalid_credentials = record {
  path = none;
  error = some forbidden_operation;
  error_message = some (text "Invalid credentials. Invalid username or password.");
}

abbrev pub invalid_access_token : ErrorResponse
invalid_access_token = record {
  path = none;
  error = some forbidden_operation;
  error_message = some (text "Invalid token.");
}

-- `MakeErrorResponse` of common.go, at the path of the request
abbrev pub make_error_response : {A : Type 0} → Bytes → ℕ → Option Error → Option Error → Reply A
make_error_response path code error message =
    json_error code (record { path = some path; error = error; error_message = message })
