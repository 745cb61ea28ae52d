-- ===== src/Core/Error.antt =====
-- crates/midgard-core/src/error.rs: the error that travels from a query to an HTTP status. The
-- text of a message is kept only where the model has it; `Chain` walks the sources of a foreign
-- error and is not modelled.
use midgard_rs.Common.{ℕ, List}

pub data Error : Type 0 where
  bad_request : List ℕ → Error
  not_found : List ℕ → Error
  internal : List ℕ → Error

unfoldable pub status_code : Error → ℕ
status_code (bad_request m) = 400
status_code (not_found m) = 404
status_code (internal m) = 500
