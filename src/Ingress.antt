-- ===== src/Ingress.antt =====
-- internal/controller/ingress_controller.go: the Monitors that the annotations of an Ingress ask for.
pub mod Annotations
pub mod Values
pub mod Main
