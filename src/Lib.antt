-- ===== src/Lib.antt =====
-- SystemOfADownload: the versions of Maven artifacts, how they are found, ordered, stored and shown.
--
-- The program. A worker polls a Sonatype repository for the versions of the registered artifacts
-- (internal/activity/version_sync.go), stores those that are new, and orders all versions of an
-- artifact with a parser that an operator describes by a schema (internal/domain,
-- internal/activity/version_ordering.go). A server registers groups and artifacts, changes schemas
-- and lists versions (internal/app, internal/httpapi); a frontend shows them. All of them share one
-- Postgres database by way of internal/repository and the queries of internal/db.
--
-- The files.
--   Prelude         lists, texts as lists of code points, the integers, strconv.Atoi, Go maps, tables
--                   (Prelude/Rows: find, any, select, update as WHERE, EXISTS and UPDATE)
--   Domain/Commit   internal/domain/asset.go: assets, commits, changelogs
--   Domain/Json     the JSON of commits and schemas by the struct tags of internal/domain
--   Domain/Version  internal/domain/version_ordering.go and version_schema.go: the parsed version,
--                   parseSimpleVersion (Parse), CompareVersions (Compare), ParseVersionWithSchema,
--                   Validate, ExtractTags (Schema)
--   Activity        slices.SortStableFunc (Sort), ComputeVersionOrdering (Ordering),
--                   ApplyVersionOrdering (Apply), StoreVersionTags (Tags), what it reads (Fetch),
--                   FetchVersions and StoreNewVersions (Sync), internal/activity/version_index.go
--                   (Index), changelog_activities.go (Enrichment), git_activities.go (Git)
--   Workflow        internal/workflow: the sliding window of the three batches as a step relation
--                   (Batch), the workflows of one version (Index, Enrich, Changelog), the changelogs
--                   of submodules (Submodules), version_ordering.go (Ordering), commit_enrichment.go
--                   (CommitEnrichment), version_sync.go (Sync)
--   Db              internal/db: the tables (Models), the queries (Registry, Versions, Commits);
--                   the highest rows of a query (Newest, Previous); internal/repository: WithTx (Tx),
--                   the filtered listings (Filter), the versions with assets and tags (Details)
--   App             internal/app/service.go: the operations (Service), ValidateSchema (Schema),
--                   GetVersions (Versions), GetArtifact and GetVersionInfo (Details)
--   Httpapi         internal/httpapi: the admin middleware (Auth), the conversion of schemas
--                   (Schema), the listing of versions (Versions), the handlers of one version and
--                   GetArtifact (Details), the other handlers (Handler), the ordering that PutArtifactSchema
--                   starts (Orderings), the schedules (Schedules)
--   Sonatype        internal/sonatype: the client of the repository, on a server that is a parameter:
--                   FetchVersions (Sonatype), SearchAssets (Assets), metadata.go (Metadata)
--   Gitcache        internal/gitcache: the clones (Gitcache), .gitmodules (Modules), Manager, which
--                   reads what git prints (Shell), and GoGitReader (GoGit)
--   Frontend        internal/frontend: version_sort.go (VersionSort), config.go (Config),
--                   classifiers.go (Classifiers), preferences.go (Preferences), commits.go
--                   (Commits), the pagination (Pagination) and the downloads page (Downloads) of
--                   handlers.go
--   Tests           runs on concrete inputs
--
-- How state and errors are modelled. The database is a record of tables, and a call of it is a
-- function from the store to a result and a store (Db/Tx). Each call may break: Faults says which
-- call of which query does, and the theorems hold for all faults unless they say otherwise. Of an
-- error the model keeps what errors.Is finds in its chain. The locale's LOWER and collation, the
-- compiled patterns of package regexp, and what Sonatype answers are parameters. Begin, Rollback and
-- Commit are Postgres's: a transaction that ends with an error, a failing Commit included, is taken to
-- have changed nothing; that the answer to a Commit which has worked is lost is left out. Rows with
-- equal sort orders come in the order of the table, in every query; Postgres does not promise this.
--
-- JSON. The columns for schemas and commits hold a JSON value, which Marshal makes and Unmarshal reads
-- by the tags of the structs; its syntax and the escapes of its strings are left out. The column of
-- the repositories holds what it unmarshals to.
--
-- Bounds and fuel. An int is 64 bits wide where Atoi makes one. The sort orders are int32, and a
-- count of versions below 2^31 is a hypothesis where it matters. The loop over the pages of stored
-- versions has one unit of fuel for each row and one more; a full page is 100 rows. The loops of the
-- Sonatype client have one for each page that the server has. The offset of the downloads page is
-- cut to an int32, as in the code. The walks of go-git end after 100000 commits, as in the code.
--
-- The sort. The library's stable sort is modelled by insertion, with which every stable sort agrees
-- where the comparison is a total preorder, as on versions of one form.
--
-- Workflows. Temporal is not modelled: an activity's result is that of its last attempt, and the
-- waits, the signals and the runs of a batch are the steps of a relation, in any order; the polls of a
-- changelog workflow are 20 at most, the depth of its submodules 3, as in the code. The repositories
-- of internal/gitcache, the downloads of jars and the time are parameters.
--
-- Not modelled: HTTP, telemetry and the file system; generated code; the git commands and the locks
-- of internal/gitcache; the asset manifest, the sponsors, the templates and the routes of the
-- frontend, and relativeTime, which rounds floats; the merge of JSON in CreateArtifactVersion, and the JSON of
-- the ordered listing.

pub mod Workflow
pub mod Prelude
pub mod Domain
pub mod Db
pub mod App
pub mod Activity
pub mod Httpapi
pub mod Frontend
pub mod Sonatype
pub mod Gitcache
mod Tests
