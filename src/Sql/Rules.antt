-- ===== src/Sql/Rules.antt =====
-- Proof rules for the steps of a connection: what holds of the tables after a step that succeeds
-- (`Ensures`), and what holds after a handler, whatever fails on its way (`Keeps`).
mod OnSuccess
mod OnAny
pub use OnSuccess.*
pub use OnAny.*
