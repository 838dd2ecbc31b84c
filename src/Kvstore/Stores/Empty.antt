-- ===== src/Kvstore/Stores/Empty.antt =====
-- `emptyKvStore` of pkg/kvstore/empty.go: it forgets what it is given. Its one value has no field.
pub mod Layer
use gosoline.Prelude.{false, none}
use gosoline.Kvstore.Store.{KvStore}

-- `zero_value` is what a `*value` that nobody reads holds.
unfoldable pub empty_store : {K V : Type 0} → V → KvStore (Unit {0}) K V
empty_store zero_value = record {
  contains = λ s key. record { exists = false; value = zero_value; err = none; store = s };
  get = λ s key value. record { exists = false; value = value; err = none; store = s };
  get_batch = λ s keys values. record { missing = keys; values = values; err = none; store = s };
  put = λ s key value. record { err = none; store = s };
  put_batch = λ s values. record { err = none; store = s };
  delete = λ s key. record { err = none; store = s };
  delete_batch = λ s keys. record { err = none; store = s };
}
