-- ===== src/Launch.antt =====
-- common/comm/src/module_factory_registry.cpp and ready_pipe_protocol.cpp: which modules can be
-- created, and how a module tells the master that it is ready.
pub mod Registry
pub mod ReadyPipe
mod Tests
