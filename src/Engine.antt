-- ===== src/Engine.antt =====
-- internal/core/engine.go and internal/core/prompt.go: how a query is answered. `Refusal` reads the
-- model's reply, `Context` caps the material, `Prompt` builds what the model is sent, and `Answer` is
-- the engine's Answer. The agent run, the retriever and the rendering of templates and of material are
-- parameters.
pub mod Refusal
pub mod Context
pub mod Prompt
pub mod Answer
pub mod Memory
mod Tests
