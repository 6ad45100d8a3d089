-- ===== src/Filter/Envelope.antt =====
-- src/common/filters/http-exception.filter.ts: the exceptions of the services, as they are answered.
use text.Mathlib.Text.{◌==◌ as str_eq}
use payment_wallet_system.Prelude.{
  ℕ, String, ◌≡◌, none, some, Option, List, [], ◌∷◌, leb, ◌==◌, if◌then◌else◌,
}
use payment_wallet_system.Filter.{
  Thrown, http, known_request, client_validation, anything, plain, fields, Message, one,
  StandardErrorResponse, target_text, taken_message,
}

-- The names of the statuses in HTTP.
abbrev pub names : List (ℕ × String)
names =
    (400, "Bad Request")
    ∷ (401, "Unauthorized")
    ∷ (403, "Forbidden")
    ∷ (404, "Not Found")
    ∷ (409, "Conflict")
    ∷ (422, "Unprocessable Entity")
    ∷ (429, "Too Many Requests")
    ∷ (500, "Internal Server Error")
    ∷ (503, "Service Unavailable")
    ∷ []

-- What an error of the database client means: a fault of the columns' uniqueness is a conflict, a row
-- that is missing is not found, and a broken relation is a bad request.
abbrev pub meanings : List (String × ℕ)
meanings = ("P2002", 409) ∷ ("P2014", 400) ∷ ("P2003", 400) ∷ ("P2025", 404) ∷ []

abbrev pub name_in : List (ℕ × String) → ℕ → String
name_in [] status = if leb 500 status then "Internal Server Error" else "Error"
name_in ((n, name) ∷ rest) status = if status == n then name else name_in rest status

abbrev pub meaning_in : List (String × ℕ) → String → ℕ
meaning_in [] code = 500
meaning_in ((c, status) ∷ rest) code = if str_eq code c then status else meaning_in rest code

-- The status of an exception.
abbrev pub status_of : Thrown → ℕ
status_of (http status body own) = status
status_of (known_request code meta) = meaning_in meanings code
status_of client_validation = 400
status_of (anything said) = 500

-- The name of the status, but for a body that brings a name of its own.
abbrev pub name_of : Thrown → String
name_of (http status (fields message (some name)) own) = name
name_of e = name_in names (status_of e)

-- What is said of an error of the database client, in which columns may be named.
abbrev pub texts : List (String × (Option String → String))
texts =
    ("P2002", taken_message)
    ∷ ("P2014", λ columns. "Operation would violate a required relation")
    ∷ ("P2003", λ columns. "Referenced record does not exist")
    ∷ ("P2025", λ columns. "The requested record was not found")
    ∷ []

abbrev pub text_in : List (String × (Option String → String)) → String → Option String → String
text_in [] code columns = "A database error occurred"
text_in ((c, text_of) ∷ rest) code columns =
    if str_eq code c then text_of columns else text_in rest code columns

-- What is said: of an exception of the framework the body's text, or its message, or its own one.
abbrev pub Says : Thrown → Message → Type 0
Says (http status (plain body) own) m = m ≡ one body
Says (http status (fields none error) own) m = m ≡ one own
Says (http status (fields (some message) error) own) m = m ≡ message
Says (known_request code meta) m = m ≡ one (text_in texts code (target_text meta))
Says client_validation m = m ≡ one "Invalid query parameters"
Says (anything said) m = m ≡ one "Internal server error"

-- The response has the path and the time that it is given, the status of the exception, its name, and
-- what is said of it.
pub record IsEnvelope (e : Thrown) (path timestamp : String) (r : StandardErrorResponse)
    : Type 0 where
  pub same_path : r.path ≡ path
  pub same_time : r.timestamp ≡ timestamp
  pub status : r.status_code ≡ status_of e
  pub named : r.error ≡ name_of e
  pub says : Says e r.message
