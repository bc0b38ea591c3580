-- ===== src/Patch.antt =====
-- core/unified_patch.py: a unified diff of one text file, applied to its text. Digits are the ASCII
-- ones.
pub mod Parsing
pub mod Applying
