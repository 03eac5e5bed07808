-- ===== src/Error.antt =====
-- src/error.rs: the failures of the explorer, and the HTTP problem that each becomes.
pub mod Response
use wcashexplorer.Base.{ℕ, ◌≡◌, refl, Bool, true, false, ◌||◌, Option, none, some, ◌++◌}
use wcashexplorer.Base.{if◌then◌else◌, ◌⊎◌, inl, inr}
use wcashexplorer.Base.Int.{ℤ}
use wcashexplorer.Base.Text.{Text, text, text_eq}
use wcashexplorer.Base.Decimal.{decimal_ℤ}

-- The cases of `sqlx::Error` that the source tells apart; `database` carries the SQLSTATE code.
pub data SqlxError : Type 0 where
  pool_timed_out pool_closed worker_crashed row_not_found : SqlxError
  database : Option Text → SqlxError
  other : SqlxError

pub data ExplorerError : Type 0 where
  config : Text → ExplorerError
  database : SqlxError → ExplorerError
  migration : ExplorerError
  rpc_transport : ExplorerError
  rpc : ℤ → Text → ExplorerError
  invalid_node_response : Text → ExplorerError
  invalid_aux_pow : Text → ExplorerError
  not_found : ExplorerError
  invalid_request : Text → ExplorerError
  not_ready : Text → ExplorerError

-- `Result<T>`, with its `?` as the continuation of a block.
pub data Result {ℓ} (T : Type ℓ) : Type ℓ where
  err : ExplorerError → Result T
  ok : T → Result T

-- `option.ok_or(error)`.
abbrev pub ok_or {ℓ} : {T : Type ℓ} (o : Option T) (error : ExplorerError) → Result T
ok_or none error = err error
ok_or (some t) error = ok t

infixl 5 ◌>>=◌
abbrev pub ◌>>=◌ {ℓ κ} : {T : Type ℓ} {U : Type κ} (r : Result T) (next : T → Result U) → Result U
err error >>= next = err error
ok t >>= next = next t

-- `if !test { return Err(error) }`.
abbrev pub guard : (test : Bool) (error : ExplorerError) → Result (Unit {0})
guard false error = err error
guard true error = ok tt

infixl 5 ◌>>◌
abbrev pub ◌>>◌ {κ} : {U : Type κ} (r : Result (Unit {0})) (next : Result U) → Result U
r >> next = r >>= λ u. next

-- `option.map(f).transpose()`.
abbrev pub transpose {ℓ κ} :
    {A : Type ℓ} {B : Type κ} → (A → Result B) → Option A → Result (Option B)
transpose f none = ok none
transpose f (some a) = f a >>= λ b. ok (some b)

pub >>=-eq-ok {ℓ κ} :
    {T : Type ℓ} {U : Type κ} (r : Result T) (next : T → Result U) {u : U}
    → (r >>= next) ≡ ok u
    → (t : T) × (r ≡ ok t) × (next t ≡ ok u)
>>=-eq-ok (err error) next h = cc
>>=-eq-ok (ok t) next h = (t, refl, h)

-- What follows from the result of every step that succeeds follows from that of the whole.
pub ok->>= {ℓ κ μ} :
    {T : Type ℓ} {U : Type κ} (P : U → Type μ) (r : Result T) (next : T → Result U)
    → ((t : T) → r ≡ ok t → (u : U) → next t ≡ ok u → P u)
    → (u : U) → (r >>= next) ≡ ok u
    → P u
ok->>= P (err error) next step u h = cc
ok->>= P (ok t) next step u h = step t refl u h

pub guard-ok : (b : Bool) (e : ExplorerError) {u : Unit {0}} → guard b e ≡ ok u → b ≡ true
guard-ok true e h = refl
guard-ok false e h = cc

pub ok_or-ok {ℓ} :
    {A : Type ℓ} (o : Option A) (e : ExplorerError) {a : A} → ok_or o e ≡ ok a → o ≡ some a
ok_or-ok none e h = cc
ok_or-ok (some a) e h = cc

pub ok_injective {ℓ} : {A : Type ℓ} {a b : A} → ok a ≡ ok b → a ≡ b
ok_injective h = cc

pub Result-cases {ℓ} :
    {A : Type ℓ} (r : Result A) → ((a : A) × (r ≡ ok a)) ⊎ ((e : ExplorerError) × (r ≡ err e))
Result-cases (ok a) = inl (a, refl)
Result-cases (err e) = inr (e, refl)

-- `#[error(...)]`: the text of an error, which the indexer stores.
unfoldable pub display : ExplorerError → Text
display (config message) = text "configuration error: " ++ message
display (database e) = text "database error"
display migration = text "database migration error"
display rpc_transport = text "node RPC transport error"
display (rpc code message) = text "node RPC " ++ (decimal_ℤ code ++ (text ": " ++ message))
display (invalid_node_response message) = text "invalid node response: " ++ message
display (invalid_aux_pow message) = text "invalid AuxPoW proof: " ++ message
display not_found = text "resource not found"
display (invalid_request message) = text "invalid request: " ++ message
display (not_ready message) = text "service is not ready: " ++ message

unfoldable pub is_retryable_database_error : SqlxError → Bool
is_retryable_database_error pool_timed_out = true
is_retryable_database_error pool_closed = true
is_retryable_database_error worker_crashed = true
is_retryable_database_error (database (some code)) =
    text_eq code (text "55P03")
    || text_eq code (text "57014")
    || text_eq code (text "53300")
    || text_eq code (text "57P03")
is_retryable_database_error (database none) = false
is_retryable_database_error row_not_found = false
is_retryable_database_error other = false

-- The problem body without its random `instance`, with the `Retry-After` header.
pub record ProblemDetails : Type 0 where
  pub problem_type : Text
  pub title : Text
  pub status : ℕ
  pub detail : Text
  pub retry_after : Option Text

abbrev problem : Text → Text → ℕ → Text → ProblemDetails
problem problem_type title status detail = record {
  problem_type = problem_type;
  title = title;
  status = status;
  detail = detail;
  retry_after = none;
}

abbrev upstream_data : Text → ProblemDetails
upstream_data =
    problem (text "https://wcashexplorer.com/problems/upstream-data") (text "Upstream data error")
      502

abbrev internal : ProblemDetails
internal =
    problem (text "https://wcashexplorer.com/problems/internal") (text "Internal service error") 500
      (text "The explorer could not complete this request.")

unfoldable pub into_response : ExplorerError → ProblemDetails
into_response not_found =
    problem (text "https://wcashexplorer.com/problems/not-found") (text "Not found") 404
      (text "The requested explorer resource does not exist.")
into_response (invalid_request detail) =
    problem (text "https://wcashexplorer.com/problems/invalid-request") (text "Invalid request") 400
      detail
into_response (not_ready detail) =
    problem (text "https://wcashexplorer.com/problems/not-ready") (text "Service not ready") 503
      detail
into_response (rpc code message) = upstream_data message
into_response (invalid_node_response message) = upstream_data message
into_response (invalid_aux_pow message) = upstream_data message
into_response (config message) =
    problem (text "https://wcashexplorer.com/problems/configuration") (text "Configuration error")
      500 message
into_response (database e) =
    if is_retryable_database_error e
    then record {
      problem_type = text "https://wcashexplorer.com/problems/not-ready";
      title = text "Service not ready";
      status = 503;
      detail = text "The explorer database is temporarily busy; retry the request.";
      retry_after = some (text "2");
    }
    else internal
into_response migration = internal
into_response rpc_transport = internal
