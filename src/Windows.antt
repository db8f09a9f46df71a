-- ===== src/Windows.antt =====
-- api/v1alpha1/maintenancewindow_types.go and internal/controller/maintenancewindow_controller.go: the
-- MaintenanceWindow resource, and the requests that its reconciler makes of it.
pub mod Duration
pub mod Resource
pub mod Main
