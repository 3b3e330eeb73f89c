-- ===== src/CommandLine.antt =====
-- internal/parser.go: from a command line or an argument list to a command. A text is a list of
-- code points here, since the splitter ranges over runes.
pub mod Split
pub mod Render
pub mod Tool
pub mod Parse
mod Tests
