-- ===== src/Mvba/Finals.antt =====
-- core/mvba/consensus/core.go, `processCBCBack`.
mod Same
mod Once
pub use Same.{commitments, elect_shares, done_cnt}
pub use Once.{stage_ends_once}
