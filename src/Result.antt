-- ===== src/Result.antt =====
-- What a call of the SDK ends with: a value, or the error that it throws.
use zed_sync.Prelude.{ℕ, JsString}

pub data JsError : Type 0 where
  range_error type_error : JsError
  no_transport : JsError
  queue_overflow : JsError
  -- `LifecycleOperationError`, with the operation that it names.
  lifecycle_error : JsString → JsError
  -- What the injected `send` rejects with.
  send_failed : ℕ → JsError

pub data Result {ℓ} (A : Type ℓ) : Type ℓ where
  ok : A → Result A
  err : JsError → Result A
