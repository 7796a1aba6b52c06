-- ===== src/Tests.antt =====
-- Runs of the model on concrete inputs.
mod TextRuns
mod VectorRuns
mod StompRuns
mod FrameRuns
mod ListRuns
mod SchemaRuns
mod ObjectRuns
mod TreeRuns
mod TransRuns
mod TimerRuns
