-- ===== src/Tests.antt =====
-- Runs of the models on concrete inputs, and the theorems at inputs that meet their hypotheses.
mod ConditionTests
mod RetryTests
mod RequestTests
mod FinalizerTests
mod DuplicateTests
mod ApiTests
mod HeartbeatTests
mod ReconcileTests
mod DeletionTests
mod CreateTests
mod AdoptedTests
mod AdmissionTests
mod ControllerTests
mod WindowTests
mod SlackTests
mod AccountTests
mod IngressTests
mod EnumerTests
mod WatchTests
mod ServerTests
