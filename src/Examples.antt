-- ===== src/Examples.antt =====
-- Tests of the definitions, and the theorems at concrete inputs.
mod Report
mod ReportTests
mod SeriesTests
mod OverviewTests
mod Settings
mod ExecutionTests
mod AuthRefreshTests
mod MfaTests
mod DashboardTests
mod StressTests
mod SocketTests
mod PayloadTests
mod AuthSessionTests
mod AuthCheckoutTests
mod CrudTests
mod WsTests
mod LatencyTests
mod ZoomTests
mod MfaFlowTests
