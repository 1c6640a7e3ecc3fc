-- ===== src/Operations.antt =====
-- zallet-core/src/components/json_rpc/asyncop.rs and the methods that read its queue
-- (methods/get_operation.rs, methods/list_operation_ids.rs).
pub mod State
pub mod Queue
mod Tests
