-- ===== src/Error/Response.antt =====
-- Which errors invite the client to ask again.
use wcashexplorer.Base.{◌≡◌, refl, true, none, some, is_some, Bool-cases, inl, inr, ◌⊎◌, ◌↔◌}
use wcashexplorer.Base.Text.{Text, text, text_eq, text_eq→eq}
use wcashexplorer.Error.{
  SqlxError, ExplorerError, database, is_retryable_database_error, into_response,
}

-- Lock not available, query cancelled, too many connections, cannot connect now.
abbrev pub IsTransientCode : Text → Type 0
IsTransientCode code =
    (code ≡ text "55P03") ⊎ (code ≡ text "57014") ⊎ (code ≡ text "53300") ⊎ (code ≡ text "57P03")

abbrev pub IsTransient : SqlxError → Type 0
IsTransient d =
    (d ≡ SqlxError.pool_timed_out)
    ⊎ (d ≡ SqlxError.pool_closed)
    ⊎ (d ≡ SqlxError.worker_crashed)
    ⊎ ((code : Text) × (d ≡ SqlxError.database (some code)) × IsTransientCode code)

abbrev pub IsRetryable : ExplorerError → Type 0
IsRetryable e = (d : SqlxError) × (e ≡ database d) × IsTransient d

database_injective :
    {d d' : SqlxError} → ExplorerError.database d ≡ ExplorerError.database d' → d ≡ d'
database_injective h = cc

transient_code :
    (code : Text)
    → (is_retryable_database_error (SqlxError.database (some code)) ≡ true)
    → IsTransientCode code
unfolding is_retryable_database_error
transient_code code h = elim (Bool-cases (text_eq code (text "55P03"))) [
  | inl e ↦ inl (text_eq→eq code (text "55P03") e)
  | inr e1 ↦ elim (Bool-cases (text_eq code (text "57014"))) [
    | inl e ↦ inr (inl (text_eq→eq code (text "57014") e))
    | inr e2 ↦ elim (Bool-cases (text_eq code (text "53300"))) [
      | inl e ↦ inr (inr (inl (text_eq→eq code (text "53300") e)))
      | inr e3 ↦ inr (inr (inr (text_eq→eq code (text "57P03") (rw (e1, e2, e3) at h))))
    ]
  ]
]

retryable-IsTransient : (d : SqlxError) → is_retryable_database_error d ≡ true → IsTransient d
unfolding is_retryable_database_error
retryable-IsTransient SqlxError.pool_timed_out h = inl refl
retryable-IsTransient SqlxError.pool_closed h = inr (inl refl)
retryable-IsTransient SqlxError.worker_crashed h = inr (inr (inl refl))
retryable-IsTransient SqlxError.row_not_found h = cc
retryable-IsTransient SqlxError.other h = cc
retryable-IsTransient (SqlxError.database none) h = cc
retryable-IsTransient (SqlxError.database (some code)) h =
    inr (inr (inr (code, refl, transient_code code h)))

IsTransient-retryable : (d : SqlxError) → IsTransient d → is_retryable_database_error d ≡ true
unfolding is_retryable_database_error text_eq text
IsTransient-retryable d (inl e) = rw e refl
IsTransient-retryable d (inr (inl e)) = rw e refl
IsTransient-retryable d (inr (inr (inl e))) = rw e refl
IsTransient-retryable d (inr (inr (inr (code, e, inl k)))) = rw (e, k) refl
IsTransient-retryable d (inr (inr (inr (code, e, inr (inl k))))) = rw (e, k) refl
IsTransient-retryable d (inr (inr (inr (code, e, inr (inr (inl k)))))) = rw (e, k) refl
IsTransient-retryable d (inr (inr (inr (code, e, inr (inr (inr k)))))) = rw (e, k) refl

database_retry :
    (d : SqlxError)
    → (is_some (into_response (database d)).retry_after ≡ true)
      ↔ (is_retryable_database_error d ≡ true)
unfolding into_response
database_retry d = elim (Bool-cases (is_retryable_database_error d)) [
  | inl e ↦ rw e ((λ h. refl), (λ h. refl))
  | inr e ↦ rw e ((λ h. cc), (λ h. cc))
]

-- A response carries a Retry-After header exactly for the database errors that may pass: a pool that
-- is exhausted or closed, a crashed worker, and the SQL states 55P03, 57014, 53300 and 57P03.
pub into_response-retry_after :
    (e : ExplorerError) → (is_some (into_response e).retry_after ≡ true) ↔ IsRetryable e
unfolding into_response
into_response-retry_after (ExplorerError.database d) = (
  (λ h. (d, refl, retryable-IsTransient d ((database_retry d).0 h))),
  (λ (d', e, h). (database_retry d).1 (rw (database_injective e) (IsTransient-retryable d' h))),
)
into_response-retry_after e = ((λ h. cc), (λ (d, e', h). cc))
