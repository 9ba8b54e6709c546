-- ===== src/Token.antt =====
-- Tokens: supply, balance, and the registry (dsm/src/types/token_types.rs), and the balances of a
-- state under token operations (dsm/src/core/token/token_state_manager.rs).
pub mod Amount
pub mod Supply
pub mod Balance
pub mod Registry
mod Tests
