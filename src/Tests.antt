-- ===== src/Tests.antt =====
-- Runs of the models on concrete inputs, and the theorems at inputs that meet their hypotheses.
mod FsmTests
mod FlagTests
mod TimerTests
mod RetryTests
mod PatchTests
mod PermitTests
mod MatchingTests
mod OneShotTests
mod LocalActivityTests
mod UpdateTests
mod ActivityTests
mod HistoryTests
mod PaginatorTests
mod ChildWorkflowTests
mod ExternalTests
mod WorkflowTaskTests
mod IncomingTests
mod LocalActTests
