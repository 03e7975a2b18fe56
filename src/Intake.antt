-- ===== src/Intake.antt =====
-- apps/api/src/intake: the conversation that fills in a draft.
pub mod Tools
pub mod Registry
pub mod Frame
pub mod Grounding
pub mod Dialogue
pub mod Claude
pub mod Turns
