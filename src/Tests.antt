-- ===== src/Tests.antt =====
-- Concrete runs of the model, on small tables.
mod Fixtures
mod FailoverRuns
mod TableRuns
mod ApplyRuns
mod OrderRuns
mod RoutingRuns
mod PanelRuns
