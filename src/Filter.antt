-- ===== src/Filter.antt =====
-- src/common/filters/http-exception.filter.ts: the response that an exception becomes. The path and
-- the time of the response are arguments; log lines are not modelled.
pub mod Envelope
use text.Mathlib.Text.{◌==◌ as str_eq}
use Prim.Native.String.{◌++◌ as append}
use payment_wallet_system.Prelude.{
  ℕ, String, Option, none, some, Bool, true, false, List, [], ◌∷◌, leb, ◌==◌, if◌then◌else◌,
}

-- A message, or the list of messages of a failed validation.
pub data Message : Type 0 where
  one : String → Message
  many : List String → Message

-- What `getResponse()` gives: a text, or an object with the fields that the filter reads.
pub data Body : Type 0 where
  plain : String → Body
  fields : Option Message → Option String → Body

-- `meta.target` of an error of the database client.
pub data Target : Type 0 where
  no_target : Target
  one_target : String → Target
  targets : List String → Target

-- The exceptions that the filter tells apart. `http` has a status, a body and a message of its own.
pub data Thrown : Type 0 where
  http : ℕ → Body → String → Thrown
  known_request : String → Target → Thrown
  client_validation : Thrown
  anything : String → Thrown

pub record StandardErrorResponse : Type 0 where
  pub status_code : ℕ
  pub message : Message
  pub error : String
  pub path : String
  pub timestamp : String

unfoldable pub status_name : ℕ → String
status_name status =
    if status == 400
    then "Bad Request"
    else if status == 401
    then "Unauthorized"
    else if status == 403
    then "Forbidden"
    else if status == 404
    then "Not Found"
    else if status == 409
    then "Conflict"
    else if status == 422
    then "Unprocessable Entity"
    else if status == 429
    then "Too Many Requests"
    else if status == 500
    then "Internal Server Error"
    else if status == 503
    then "Service Unavailable"
    else if leb 500 status
    then "Internal Server Error"
    else "Error"

abbrev pub message_or : String → Option Message → Message
message_or own none = one own
message_or own (some m) = m

abbrev pub name_or : ℕ → Option String → String
name_or status none = status_name status
name_or status (some name) = name

-- `unpackHttpExceptionBody`
unfoldable pub unpack_http_exception_body : Body → String → ℕ → Message × String
unfolding status_name
unpack_http_exception_body (plain body) own status = (one body, status_name status)
unpack_http_exception_body (fields message error) own status =
    (message_or own message, name_or status error)

-- `join(', ')`
unfoldable pub join : List String → String
join [] = ""
join (s ∷ []) = s
join (s ∷ t ∷ rest) = append s (append ", " (join (t ∷ rest)))

-- The text of the columns, where an empty one counts as none.
abbrev pub named : String → Option String
named String.[] = none
named (String.◌∷◌ c s) = some (String.◌∷◌ c s)

abbrev pub target_text : Target → Option String
target_text no_target = none
target_text (one_target s) = named s
target_text (targets ss) = named (join ss)

abbrev pub taken_message : Option String → String
taken_message none = "A user with these unique values already exists"
taken_message (some columns) = append "A user with this " (append columns " already exists")

abbrev pub response : ℕ → Message → String → String → String → StandardErrorResponse
response status message error path timestamp = record {
  status_code = status;
  message = message;
  error = error;
  path = path;
  timestamp = timestamp;
}

unfoldable pub map_prisma_known_error : String → Target → String → String → StandardErrorResponse
unfolding join
map_prisma_known_error code target path timestamp =
    if str_eq code "P2002"
    then response 409 (one (taken_message (target_text target))) "Conflict" path timestamp
    else if str_eq code "P2025"
    then response 404 (one "The requested record was not found") "Not Found" path timestamp
    else if str_eq code "P2003"
    then response 400 (one "Referenced record does not exist") "Bad Request" path timestamp
    else if str_eq code "P2014"
    then response 400 (one "Operation would violate a required relation") "Bad Request" path
        timestamp
    else response 500 (one "A database error occurred") "Internal Server Error" path timestamp

unfoldable pub to_standard_error : Thrown → String → String → StandardErrorResponse
unfolding unpack_http_exception_body map_prisma_known_error
to_standard_error (http status body own) path timestamp =
    let (message, error) = unpack_http_exception_body body own status in
    response status message error path timestamp
to_standard_error (known_request code target) path timestamp =
    map_prisma_known_error code target path timestamp
to_standard_error client_validation path timestamp =
    response 400 (one "Invalid query parameters") "Bad Request" path timestamp
to_standard_error (anything message) path timestamp =
    response 500 (one "Internal server error") "Internal Server Error" path timestamp
