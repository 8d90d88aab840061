-- ===== src/Markdown.antt =====
-- memory/src/everos/core/persistence/markdown: the ids of entries, and the marked spans of a body,
-- as entries.py reads them and writer.py appends them.
pub mod EntryId
pub mod Entries
pub mod DirName
mod Examples
