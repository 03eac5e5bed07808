-- ===== src/Rpc/Body.antt =====
-- src/rpc.rs: reading a response body by chunks, under the size limit.
use wcashexplorer.Base.{
  ℕ, ◌+◌, ◌≤◌, ◌≡◌, refl, ap, ◌∙◌, Option, none, some, List, [], ◌∷◌, ◌++◌, arith, if◌then◌else◌,
  ltb, length, length-append, Bool-cases, inl, inr, map,
}
use wcashexplorer.Base.Text.{text}
use wcashexplorer.Error.{Result, ok, err, rpc_transport, invalid_node_response}
use wcashexplorer.Rpc.{max_rpc_response_bytes}
use mathlib.Core.List.{append_assoc, append-nil}

-- `while let Some(chunk) = response.chunk().await? { … }`: a missing chunk is a transport error.
-- `saturating_add` stops at `usize::MAX`, far above the limit, so the sum is written plainly.
unfoldable pub read_chunks : List ℕ → List (Option (List ℕ)) → Result (List ℕ)
read_chunks bytes [] = ok bytes
read_chunks bytes (none ∷ rest) = err rpc_transport
read_chunks bytes (some chunk ∷ rest) =
    let more = read_chunks (bytes ++ chunk) rest in
    if ltb max_rpc_response_bytes (length bytes + length chunk)
    then err (invalid_node_response (text "node response exceeded the configured size limit"))
    else more

-- The chunks put together.
abbrev pub concat : List (List ℕ) → List ℕ
concat [] = []
concat (chunk ∷ rest) = chunk ++ concat rest

read_chunks_from :
    (chunks : List (Option (List ℕ))) (start bytes : List ℕ)
    → length start ≤ max_rpc_response_bytes
    → read_chunks start chunks ≡ ok bytes
    → (whole : List (List ℕ)) × (chunks ≡ map some whole)
      × (bytes ≡ start ++ concat whole)
      × (length bytes ≤ max_rpc_response_bytes)
unfolding read_chunks
read_chunks_from [] start bytes fits h = ([], refl, ground (arith, append-nil start), ground arith)
read_chunks_from (none ∷ rest) start bytes fits h = cc
read_chunks_from (some chunk ∷ rest) start bytes fits h =
    elim (Bool-cases (ltb max_rpc_response_bytes (length start + length chunk))) [
      | inl over ↦ cc (rw over at h)
      | inr room ↦
          let ih =
            read_chunks_from rest (start ++ chunk) bytes (ground (arith, length-append start chunk))
              (rw room at h) in
          (
            chunk ∷ ih.0,
            ap (λ r. some chunk ∷ r) ih.1,
            ih.2 ∙ append_assoc start chunk (concat ih.0),
            ih.3,
          )
    ]

-- A body that is read whole is every chunk in order, none of them failed, and is within the limit.
pub read_chunks_lem :
    (chunks : List (Option (List ℕ))) (bytes : List ℕ)
    → read_chunks [] chunks ≡ ok bytes
    → (whole : List (List ℕ)) × (chunks ≡ map some whole)
      × (bytes ≡ concat whole)
      × (length bytes ≤ max_rpc_response_bytes)
read_chunks_lem chunks bytes h = read_chunks_from chunks [] bytes (omega arith) h
