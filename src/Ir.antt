-- ===== src/Ir.antt =====
-- The intermediate representation, src/dnc/ir: identities and versions, contracts, units, the
-- structural graph, the operations on it and its validator.
pub mod Enums
pub mod Identity
pub mod Contracts
pub mod Graph
pub mod Errors
pub mod Validator
