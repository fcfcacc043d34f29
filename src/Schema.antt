-- ===== src/Schema.antt =====
-- db/schema.ts: the rows of the tables. A nullable column is an `Option`; a table is the list of
-- its rows in the order of their rowid, which SQLite gives in the order of insertion.
pub mod Jobs
