-- ===== src/Domain.antt =====
-- app/domain: the enumerations, the rows of the tables and the booking state machine.
pub mod Enums
pub mod Models
pub mod States
pub mod Pnr
