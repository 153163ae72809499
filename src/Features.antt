-- ===== src/Features.antt =====
-- native/annotator/feature-processor.cc: boundaries of spans, lines, clicked tokens, labels and padding.
pub mod Boundary
pub mod Labels
pub mod Clicks
pub mod Padding
pub mod Lines
pub mod Splits
