-- ===== src/Api/Sources.antt =====
-- The handlers of backend/pullbackup/api/sources.py that change sources. `delete_source` holds no lock;
-- each is one transaction.
use pullbackup.Base.{
  ℕ, suc, String, Bool, not, ◌&&◌, List, [], ◌∷◌, any, max2, is_some, is_none, ◌==◌, nat_comparable,
  text_comparable, if◌then◌else◌,
}
use pullbackup.Models.{Source, Task, Db, put_by, delete_by}
use pullbackup.Names.{validate_ssh_host, validate_ssh_user}
use pullbackup.Dispatch.{get_source}
use pullbackup.Lifecycle.{runs_for_source}

-- `SourceIn`
pub record SourceFields : Type 0 where
  pub name : String
  pub user : String
  pub host : String
  pub port : ℕ
  pub ssh_key_path : String
  pub description : String

-- Whether its two validators pass; they answer the values as they are.
unfoldable pub accepts_source : SourceFields → Bool
unfolding validate_ssh_host validate_ssh_user
accepts_source f = is_some (validate_ssh_host f.host) && is_some (validate_ssh_user f.user)

unfoldable pub source_of : ℕ → SourceFields → Source
source_of id f = record {
  id = id;
  name = f.name;
  user = f.user;
  host = f.host;
  port = f.port;
  ssh_key_path = f.ssh_key_path;
  description = f.description;
}

unfoldable pub next_source_id : List Source → ℕ
next_source_id [] = 1
next_source_id (s ∷ sources) = max2 (suc s.id) (next_source_id sources)

-- The status of the answer; the tables are left as they are with any but 200, 201 and 204.
unfoldable pub create_source : SourceFields → Db → Db × ℕ
unfolding accepts_source source_of next_source_id put_by
create_source f db =
    if not (accepts_source f)
    then (db, 422)
    else if any (λ (s : Source). s.name == f.name) db.sources
    then (db, 409)
    else (
      record db {
        sources =
            put_by (λ (s : Source). s.id) (source_of (next_source_id db.sources) f) db.sources;
      },
      201,
    )

unfoldable pub update_source : ℕ → SourceFields → Db → Db × ℕ
unfolding accepts_source source_of runs_for_source put_by get_source
update_source source_id f db =
    if not (accepts_source f)
    then (db, 422)
    else if is_none (get_source db source_id)
    then (db, 404)
    else if any (runs_for_source db source_id) db.runs
    then (db, 409)
    else (
      record db { sources = put_by (λ (s : Source). s.id) (source_of source_id f) db.sources },
      200,
    )

unfoldable pub delete_source : ℕ → Db → Db × ℕ
unfolding delete_by get_source
delete_source source_id db =
    if is_none (get_source db source_id)
    then (db, 404)
    else if any (λ (t : Task). t.source_id == source_id) db.tasks
    then (db, 409)
    else (record db { sources = delete_by (λ (s : Source). s.id) source_id db.sources }, 204)
