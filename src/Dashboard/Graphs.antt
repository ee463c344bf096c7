-- ===== src/Dashboard/Graphs.antt =====
-- The graphs of engines/jmeter/html-report/content/js/graph.js, by the pages that show them.
pub mod Spread
pub mod Load
pub mod Against
pub mod Times
pub mod Rates
