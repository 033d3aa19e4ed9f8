-- ===== src/Lib.antt =====
-- gpbackup and gprestore: what the backup writes, what the restore reads of it, and in which order
-- both do it.
--
-- gpbackup connects to a cluster, sorts the objects of the database by their dependencies, writes
-- their statements to one metadata file and notes the byte range of each in a table of contents, and
-- dumps the tables that are not excluded or unchanged. gprestore reads the table of contents, filters
-- its entries, splits the statements into batches and tiers, and executes them on one or several
-- connections.
--
-- Base: numbers, tests, lists, multiplicities, Go's maps and the way a function ends. A call of
--   gplog.Fatal is the outcome `fatal`, with a shortened message.
-- Utils: utils/set.go (FilterSet), utils/util.go (Utils.Text), utils/io.go (Utils.Io).
-- Toc: toc/toc.go. Toc has the records and the additions, Toc.Filters the choice of metadata entries,
--   Toc.Statements the reading of statements, Toc.DataEntries the choice of data entries.
-- Options: options/flag.go, a parsed flag set as its lookups and CheckExclusiveFlags.
-- Backup.Metadata: PrintStatements of backup/predata_acl.go.
-- Backup.Sort: TopologicalSort of backup/dependencies.go. Its maps are functions on the ids. The two
--   loops run on fuel, two rounds per object and one more, which is proved to be enough.
-- Backup.Cohorts, Backup.Cycles: mergeCohorts, assignCohorts and breakCircularDependencies of the same
--   file.
-- Backup.Incremental: backup/incremental.go, the choice of tables and the restore plan.
-- Backup.Acl, Backup.Grants, Backup.Objects: backup/predata_acl.go and the records of
--   backup/queries_acl.go: aclitems, the GRANT and other statements, the grouping of rows.
-- Backup.Flags and Restore.Flags: backup/validate.go and restore/validate.go.
-- Restore.FilterLists, Restore.Resize: restore/validate.go and GetResizeClusterInfo of
--   restore/remote.go.
-- Restore.Batches and Restore.Workers: restore/parallel.go.
-- Restore.Data: restore/data.go. Restore.Data has the division of the tables and the restore of one,
--   Restore.Data.Loading the loop of a connection.
-- Helper: the agents on the segment hosts. Helper.Backup is doBackupAgent of helper/backup_helper.go;
--   Helper.Reader is RestoreReader of helper/restore_helper.go, Helper.Restore its
--   doRestoreAgentInternal: the state, the steps of a round (Helper.Restore.Agent) and the loop
--   (Helper.Restore.Loop). Pipes are known by oid and batch, readers have the bytes that they read,
--   and what the host refuses, when COPY opens a pipe, where a copy breaks and how many bytes are lost
--   when the flush of a buffered writer fails are parameters.
-- Tests: the theorems at concrete inputs.
--
-- A Go map is the list of its entries in the order in which `range` visits them, so that a theorem
-- over all lists, or over any reordering of them, holds for every order of the runtime. Numbers are
-- natural numbers; a counter of the source keeps the modulus of its type. What Go's libraries and the
-- server do is a parameter: the matches of a regular expression, sort.Slice, the result of a
-- statement. Which privileges ALL covers is written down in Backup.Grants.Documented, from the
-- documentation of GRANT, and is no part of the model of the code.
--
-- Not modelled: queries of the catalog, the files and signals of the helper agents, plugins, the history
-- database, reports, and the tool that checks a migration. Of the connections that restore data, each
-- is modelled alone.
pub mod Base
pub mod Utils
pub mod Toc
pub mod Options
pub mod Backup
pub mod Restore
pub mod Helper
pub mod Tests
