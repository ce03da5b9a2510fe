-- ===== src/Markup.antt =====
-- internal/toolcall/toolcalls_scan.go, and the parts of toolcalls_parse_markup.go and toolcalls_parse.go
-- that it uses: the tags of tool calls in a text, outside of CDATA sections and comments. `text` is the
-- text and `lower` is strings.ToLower of it, as in the code; a slice out of range is a panic.
pub mod TagEnds
pub mod Names
pub mod Ignored
pub mod Scan
pub mod Find
pub mod Bounds
pub mod Skips
pub mod Found
pub mod Matched
pub mod Panics
pub mod Tests
