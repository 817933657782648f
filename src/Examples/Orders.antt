-- ===== src/Examples/Orders.antt =====
-- The theorems on the order storage at a storage with four orders.
use order_processor.Common.{refl, arith}
use order_processor.Model.Ids.{is_valid_id, get_id}
use order_processor.Model.Order.{Order}
use order_processor.Model.Enums
use order_processor.Store.Defs.{save, restore}
use order_processor.Store.Linked.{IsLinked, Saved, Restored, save-Saved, restore-Restored}
use order_processor.Examples.Data.{storage, limit_order}

abbrev new_order : Order
new_order = limit_order 6 Enums.buy 100 5

-- An order without an id.
abbrev unnumbered : Order
unnumbered = record new_order { order_id = 0 }

storage-IsLinked : IsLinked storage
storage-IsLinked = record { ids = λ k. ground arith; cl_ids = λ c. ground arith }

save-Saved_example : Saved unnumbered 3 12 storage (save unnumbered 3 12 storage)
unfolding get_id
save-Saved_example = save-Saved unnumbered 3 12 storage storage-IsLinked refl

restore-Restored_example : Restored new_order storage (restore new_order storage)
restore-Restored_example =
    restore-Restored new_order storage storage-IsLinked (unfold is_valid_id in refl)
