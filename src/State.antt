-- ===== src/State.antt =====
-- States and their operations (dsm/src/types/state_types.rs, dsm/src/types/operations.rs), and the
-- making of the next state (dsm/src/core/state_machine/transition.rs).
pub mod Operation
pub mod Sparse
pub mod Model
pub mod Next
mod Tests
