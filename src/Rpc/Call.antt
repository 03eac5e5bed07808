-- ===== src/Rpc/Call.antt =====
-- src/rpc.rs: one JSON-RPC call. What the HTTP client, the JSON decoder and the file system answer
-- are parameters.
use wcashexplorer.Base.{
  ℕ, ◌≤◌, ◌≡◌, Bool, true, false, not, Option, none, some, List, [], ◌∷◌, ◌++◌, if◌then◌else◌, ltb,
  ◌==◌, length, arith, inl, inr, Option-cases, map,
}
use mathlib.Core.Path.{subst}
use wcashexplorer.Base.Int.{ℤ}
use wcashexplorer.Base.Text.{Text, text, text_eq, text_eq→eq}
use wcashexplorer.Models.{Value}
use wcashexplorer.Error.{
  ExplorerError, Result, ok, err, config, rpc, rpc_transport, invalid_node_response, guard, ok_or,
  ◌>>=◌, ◌>>◌, ok->>=, guard-ok, ok_or-ok,
}
use wcashexplorer.Config.Load.{RpcAuth, no_auth, basic, cookie}
use wcashexplorer.Rpc.{max_rpc_response_bytes, ensure_json_rpc_version}
use wcashexplorer.Rpc.Body.{read_chunks, read_chunks_lem, concat}

pub record RpcRequest : Type 0 where
  pub jsonrpc : Text
  pub id : ℕ
  pub method : Text
  pub params : Value

pub record RpcError : Type 0 where
  pub code : ℤ
  pub message : Text

pub record RpcResponse (T : Type 0) : Type 0 where
  pub jsonrpc : Text
  pub id : ℕ
  pub result : Option T
  pub error : Option RpcError

-- What the client reads of a response: the status, and the body as it arrives.
pub record Response : Type 0 where
  pub status : Text
  pub is_success : Bool
  pub content_length : Option ℕ
  pub chunks : List (Option (List ℕ))

-- The endpoint as it answers now: no response is a transport error.
pub record Transport : Type 0 where
  pub auth : RpcAuth
  pub send : Option (Text × Text) → RpcRequest → Option Response
  pub read_to_string : Text → Option Text
  pub trim : Text → Text

abbrev colon_first : ℕ → Text → Option (Text × Text) → Option (Text × Text)
colon_first c cs none = if c == b':' then some ([], cs) else none
colon_first c cs (some (before, after)) =
    if c == b':' then some ([], cs) else some (c ∷ before, after)

-- `split_once(':')`.
unfoldable pub split_once : Text → Option (Text × Text)
split_once [] = none
split_once (c ∷ cs) = colon_first c cs (split_once cs)

-- The credentials that `basic_auth` is given.
unfoldable pub with_auth : Transport → RpcAuth → Result (Option (Text × Text))
with_auth t no_auth = ok none
with_auth t (basic username password) = ok (some (username, password))
with_auth t (cookie path) = do
  content ← ok_or (t.read_to_string path) (config (text "could not read RPC cookie " ++ path))
  pair ←
      ok_or (split_once (t.trim content))
        (config (text "RPC cookie " ++ (path ++ text " has an invalid format")))
  ok (some pair)

-- `content_length().is_some_and(|length| length > MAX_RPC_RESPONSE_BYTES)`.
unfoldable pub announces_too_much : Response → Bool
announces_too_much response = elim response.content_length [
  | none ↦ false
  | some n ↦ ltb max_rpc_response_bytes n
]

abbrev pub size_limit : ExplorerError
size_limit = invalid_node_response (text "node response exceeded the configured size limit")

-- What an envelope says: its error, or its result.
unfoldable pub envelope_result : {T : Type 0} → RpcResponse T → Result T
envelope_result envelope = elim envelope.error [
  | some e ↦ err (rpc e.code e.message)
  | none ↦ ok_or envelope.result (invalid_node_response (text "JSON-RPC response omitted result"))
]

abbrev pub request_of : ℕ → Text → Value → RpcRequest
request_of id method params = record {
  jsonrpc = text "2.0";
  id = id;
  method = method;
  params = params;
}

unfoldable pub call :
    {T : Type 0} → (List ℕ → Option (RpcResponse T)) → Transport → ℕ → Text → Value → Result T
call from_slice t id method params = do
  credentials ← with_auth t t.auth
  response ← ok_or (t.send credentials (request_of id method params)) rpc_transport
  guard response.is_success (invalid_node_response (text "node returned HTTP " ++ response.status))
  guard (not (announces_too_much response)) size_limit
  bytes ← read_chunks [] response.chunks
  envelope ← ok_or (from_slice bytes) (invalid_node_response (text "invalid JSON-RPC response"))
  ensure_json_rpc_version envelope.jsonrpc
  guard (envelope.id == id)
      (invalid_node_response (text "JSON-RPC response ID did not match the request"))
  envelope_result envelope

-- The answer of a call: a whole body under the limit that is a JSON-RPC 2.0 envelope with the id of
-- the request, with a result and no error.
pub IsAnswer :
    {T : Type 0} → (List ℕ → Option (RpcResponse T)) → Transport → ℕ → Text → Value → T → Type 0
IsAnswer {T} from_slice t id method params answer =
    (credentials : Option (Text × Text)) × (response : Response) × (whole : List (List ℕ))
    × (envelope : RpcResponse T) × (t.send credentials (request_of id method params)
        ≡ some response)
    × (response.is_success ≡ true)
    × (response.chunks ≡ map some whole)
    × (length (concat whole) ≤ max_rpc_response_bytes)
    × (from_slice (concat whole) ≡ some envelope)
    × (envelope.jsonrpc ≡ text "2.0")
    × (envelope.id ≡ id)
    × (envelope.error ≡ none)
    × (envelope.result ≡ some answer)

envelope_result-ok :
    {T : Type 0} (envelope : RpcResponse T) {answer : T}
    → envelope_result envelope ≡ ok answer
    → (envelope.error ≡ none) × (envelope.result ≡ some answer)
unfolding envelope_result
envelope_result-ok envelope h = elim (Option-cases envelope.error) [
  | inr (e, found) ↦ cc (rw (envelope_result, found) at h)
  | inl e ↦ (
    e,
    ok_or-ok envelope.result (invalid_node_response (text "JSON-RPC response omitted result"))
        (rw (envelope_result, e) at h),
  )
]

-- A call that succeeds returns the result of an answer to this very request: a whole body under the
-- limit, a JSON-RPC 2.0 envelope with the id of the request, no error.
pub call-IsAnswer :
    {T : Type 0} (from_slice : List ℕ → Option (RpcResponse T)) (t : Transport) (id : ℕ)
    (method : Text) (params : Value) (answer : T)
    → call from_slice t id method params ≡ ok answer
    → IsAnswer from_slice t id method params answer
unfolding call IsAnswer ensure_json_rpc_version
call-IsAnswer from_slice t id method params answer =
    ok->>= (IsAnswer from_slice t id method params) (with_auth t t.auth) _
      (λ credentials e1.
        ok->>= (IsAnswer from_slice t id method params)
          (ok_or (t.send credentials (request_of id method params)) rpc_transport) _
          λ response e2.
            ok->>= (IsAnswer from_slice t id method params)
              (guard response.is_success
                (invalid_node_response (text "node returned HTTP " ++ response.status)))
              _
              λ u e3.
                ok->>= (IsAnswer from_slice t id method params)
                  (guard (not (announces_too_much response)) size_limit) _
                  λ v e4.
                    ok->>= (IsAnswer from_slice t id method params) (read_chunks [] response.chunks)
                      _
                      λ bytes e5.
                        ok->>= (IsAnswer from_slice t id method params)
                          (ok_or (from_slice bytes)
                            (invalid_node_response (text "invalid JSON-RPC response")))
                          _
                          λ envelope e6.
                            ok->>= (IsAnswer from_slice t id method params)
                              (ensure_json_rpc_version envelope.jsonrpc) _
                              λ w e7.
                                ok->>= (IsAnswer from_slice t id method params)
                                  (guard (envelope.id == id) (
                                    invalid_node_response
                                      (text "JSON-RPC response ID did not match the request")))
                                  _
                                  λ x e8. λ answer h.
                                    (let (whole, e_chunks, e_bytes, fits) =
                                        read_chunks_lem response.chunks bytes e5 in
                                      let (no_error, has_result) = envelope_result-ok envelope h in
                                      let same_id : (envelope.id == id) ≡ true =
                                        guard-ok (envelope.id == id)
                                          (invalid_node_response
                                            (text "JSON-RPC response ID did not match the request"))
                                          e8 in
                                      (
                                        credentials,
                                        response,
                                        whole,
                                        envelope,
                                        ok_or-ok (t.send credentials (request_of id method params))
                                            rpc_transport e2,
                                        guard-ok response.is_success
                                            (invalid_node_response
                                              (text "node returned HTTP " ++ response.status))
                                            e3,
                                        e_chunks,
                                        subst (λ b. length b ≤ max_rpc_response_bytes) e_bytes fits,
                                        subst (λ b. from_slice b ≡ some envelope) e_bytes
                                            (ok_or-ok (from_slice bytes)
                                              (invalid_node_response
                                                (text "invalid JSON-RPC response"))
                                              e6),
                                        text_eq→eq envelope.jsonrpc (text "2.0") (
                                            guard-ok (text_eq envelope.jsonrpc (text "2.0"))
                                              (invalid_node_response
                                                (text "node response is not JSON-RPC 2.0"))
                                              e7),
                                        ground (arith, same_id),
                                        no_error,
                                        has_result,
                                      )))
      answer
