-- ===== src/Groups.antt =====
-- api/v1alpha1/monitorgroup_types.go and internal/controller/monitorgroup_controller.go: the
-- MonitorGroup resource and its reconciler.
pub mod Resource
pub mod Main
