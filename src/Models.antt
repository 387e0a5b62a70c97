-- ===== src/Models.antt =====
-- backend/pullbackup/models.py: the tables, as records, and the session's reads and writes on them.
-- An instant is a count of microseconds in UTC, which is the stored contract; `aware` of
-- services/due.py, which restores the zone that SQLite drops, is then the identity.
-- Columns that no modelled code reads (the counts and the log name of a run) are left out.
mod Tables
mod Store
mod Query
pub use Tables.*
unfoldable pub use Store.{find_by, put_by, delete_by}
pub use Store.{
  find_by-key, find_by-put_by, find_by-delete_by, find_by-All, put_by-All, delete_by-All,
}
unfoldable pub use Query.{earliest, latest}
pub use Query.{is_active, is_success}
