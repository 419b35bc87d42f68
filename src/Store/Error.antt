-- ===== src/Store/Error.antt =====
-- crates/domain/src/models/feed.rs, `StoreError`.
use Prim.Native.String.{String, ◌++◌}

pub data StoreError : Type 0 where
  d1 : String → StoreError

-- The `Display` text.
unfoldable pub error_text : StoreError → String
error_text (d1 e) = "d1 error: " ++ e
