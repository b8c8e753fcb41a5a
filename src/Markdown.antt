-- ===== src/Markdown.antt =====
-- The Markdown of the documents: the front matter, the lines that are blocks, the outline with its
-- sections, as packages/core/src/front-matter.ts, markdown-blocks.ts and search/outline.ts read it.
pub mod FrontMatter
pub mod Plain
pub mod Lines
pub mod Blocks
pub mod Outline
pub mod Sections
