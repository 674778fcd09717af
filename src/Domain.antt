-- ===== src/Domain.antt =====
-- The shared contracts of src/piki/domain/contracts.py. A frozen pydantic model is a record; its
-- `Field` bounds and its `model_validator` are functions that raise `value_error`.
pub mod Messages
pub mod Tools
pub mod Delivery
