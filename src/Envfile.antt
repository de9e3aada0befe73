-- ===== src/Envfile.antt =====
-- internal/envfile/store.go: a dotenv file that the program owns, and what a process reads from it, from its
-- own environment and from the edits that it has made.
pub mod Text
pub mod Quote
pub mod Line
pub mod Trim
pub mod ReadBack
pub mod Overlay
pub mod Pieces
pub mod Loading
pub mod Unbroken
pub mod Reopen
pub mod Precedence
