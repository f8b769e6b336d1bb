-- ===== src/Server/Backend.antt =====
-- What the worker's server takes from a backend, the trait Backend of
-- crates/vt-ferry-worker/src/backend.rs.
use vt_ferry.Prelude.{ℕ, ◌≤◌, ◌≡◌, Option, some, List, length}
use vt_ferry.Protocol.Header.{MessageHeader}

-- The backend after a request, the response header and buffer that it has written, and the returned
-- Result<usize, ()>.
pub record Answer (S : Type 0) : Type 0 where
  pub backend : S
  pub res_header : MessageHeader
  pub res_payload : List ℕ
  pub result : Option ℕ

-- The response buffer is a slice, whose length stays, and the length returned is that of the response
-- payload written to it.
pub record Backend (S : Type 0) : Type 0 where
  pub dispatch : S → MessageHeader → List ℕ → List ℕ → Answer S
  pub length-dispatch :
      (b : S) (req_header : MessageHeader) (req res : List ℕ)
      → length (dispatch b req_header req res).res_payload ≡ length res
  pub dispatch-le :
      (b : S) (req_header : MessageHeader) (req res : List ℕ) (n : ℕ)
      → (dispatch b req_header req res).result ≡ some n
      → n ≤ length res
