-- ===== src/Utils.antt =====
-- include/wshttp/utils.hpp: the test whether an increment overflows.
use wshttp.Prelude.{Bool}
use wshttp.Maps.{Key}

-- `max` is what `std::numeric_limits<T>::max()` gives.
unfoldable pub increment_will_overflow {ℓ} : {T : Type ℓ} → ⦃key : Key T⦄ → (max val : T) → Bool
increment_will_overflow ⦃key⦄ max val = key.same max val
