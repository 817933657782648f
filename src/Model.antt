-- ===== src/Model.antt =====
-- The data model: src/TypesDef.h, src/IdTGenerator.cpp, src/DataModelDef.h, src/DataModelDef.cpp.
pub mod Ids
pub mod Enums
pub mod Order
pub mod Validity
pub mod Fills
pub mod Generator
pub mod Acceptance
