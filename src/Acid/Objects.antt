-- ===== src/Acid/Objects.antt =====
-- `ObjectType` and `ObjectInTransaction` of src/TransactionDef.h.
use order_processor.Common.{ℕ_discrete}
use order_processor.Model.Ids.{IdT}

pub data ObjectType : Type 0 where
  invalid_object instrument_object order_object execution_object : ObjectType

pub record Object : Type 0 where
  pub id : IdT
  pub type : ObjectType

pub Object-discrete : Discrete Object
Object-discrete = hlevel ℕ_discrete
