-- ===== src/Api/Requests.antt =====
-- The requests of api/tasks.py and api/sources.py that change the tables, one after the other.
use pullbackup.Base.{ℕ, List, [], ◌∷◌}
use pullbackup.Models.{Instant}
use pullbackup.Scheduler.{Registry}
use pullbackup.Api.Payload.{TaskFields}
use pullbackup.Api.Tasks.{Services, Server, create_task, update_task, delete_task, run_now}
use pullbackup.Api.Sources.{SourceFields, create_source, update_source, delete_source}
use pullbackup.Api.Linked.{HasSource, IsLinked}
use pullbackup.Api.Integrity.{
  create_source-IsLinked, update_source-IsLinked, delete_source-IsLinked,
}
use pullbackup.Api.Integrity.Handlers.{
  create_task-IsLinked, update_task-IsLinked, delete_task-IsLinked, run_now-IsLinked,
}

pub data Request : Type 0 where
  post_task : TaskFields → Request
  patch_task : ℕ → TaskFields → Request
  remove_task : ℕ → Request
  post_run : ℕ → Request
  post_source : SourceFields → Request
  patch_source : ℕ → SourceFields → Request
  remove_source : ℕ → Request

module _ (registry : Registry) (v : Services) where
  -- The process after a request at an instant.
  unfoldable pub serve : Request → Instant → Server registry → Server registry
  serve (post_task f) now s = (create_task registry v f now now s).0
  serve (patch_task id f) now s = (update_task registry v id f now now s).0
  serve (remove_task id) now s = (delete_task registry id s).0
  serve (post_run id) now s = (run_now registry id now s).0
  serve (post_source f) now s = record s { db = (create_source f s.db).0 }
  serve (patch_source id f) now s = record s { db = (update_source id f s.db).0 }
  serve (remove_source id) now s = record s { db = (delete_source id s.db).0 }

  unfoldable pub serve_all : List (Request × Instant) → Server registry → Server registry
  unfolding serve
  serve_all [] s = s
  serve_all ((q, now) ∷ requests) s = serve_all requests (serve q now s)

  -- An edit of a task names a source that is there.
  abbrev pub NamesSource : Request → Server registry → Type 0
  NamesSource (patch_task id f) s = HasSource s.db f.source_id
  NamesSource _ s = Unit

  abbrev pub NameSources : List (Request × Instant) → Server registry → Type 0
  NameSources [] s = Unit
  NameSources ((q, now) ∷ requests) s = NamesSource q s × NameSources requests (serve q now s)

  serve-IsLinked :
      (q : Request) (now : Instant) (s : Server registry)
      → NamesSource q s
      → IsLinked s.db
      → IsLinked (serve q now s).db
  unfolding serve
  serve-IsLinked (post_task f) now s n h = create_task-IsLinked registry v f now now s h
  serve-IsLinked (patch_task id f) now s n h = update_task-IsLinked registry v id f now now s n h
  serve-IsLinked (remove_task id) now s n h = delete_task-IsLinked registry v id s h
  serve-IsLinked (post_run id) now s n h = run_now-IsLinked registry v id now s h
  serve-IsLinked (post_source f) now s n h = create_source-IsLinked f s.db h
  serve-IsLinked (patch_source id f) now s n h = update_source-IsLinked id f s.db h
  serve-IsLinked (remove_source id) now s n h = delete_source-IsLinked id s.db h

  -- Whatever requests are served, in whatever order, every run and every obligation still names a task
  -- that is there and every task a source, if they did before and each edit of a task names a source that
  -- is there when it is served.
  pub serve_all-IsLinked :
      (requests : List (Request × Instant)) (s : Server registry)
      → NameSources requests s
      → IsLinked s.db
      → IsLinked (serve_all requests s).db
  unfolding serve_all
  serve_all-IsLinked [] s n h = h
  serve_all-IsLinked ((q, now) ∷ requests) s n h =
      serve_all-IsLinked requests (serve q now s) n.1 (serve-IsLinked q now s n.0 h)
