-- ===== src/BuildContext.antt =====
-- core/builder/sql-build-context.ts: what the build of a query keeps while it writes. The parts are
-- in the modules below, each with its state.
mod Tests
pub mod Keywords
pub mod Nesting
pub mod AliasNames
pub mod Queries
pub mod Numbered
pub mod AddQuery
pub mod Scope
pub mod Tokenizer
pub mod Tokens
pub mod Restores
pub mod Aliases
pub mod AliasFresh
