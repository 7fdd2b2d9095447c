-- ===== src/Runtime.antt =====
-- internal/runtime: the composition boundary. `Policy` holds what an instance configures and its
-- message catalog, `Verbs` the admin operations behind buttons, `Services` what the handler is given,
-- `Logs`, `Turns` and `Handler` the handler itself; the other modules prove.
pub mod Policy
pub mod Verbs
pub mod Services
pub mod Consent
pub mod Logs
pub mod Turns
pub mod Handler
pub mod Callbacks
pub mod Privacy
pub mod Direct
pub mod Forgetting
pub mod Proposals
mod Tests
