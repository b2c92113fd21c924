-- ===== src/Db.antt =====
-- internal/db/db.go: the tables of the database.
--
-- Each repository of internal/db/repositories.go is a child module with one function for each SQL
-- statement, over the rows of one table in the order of their insertion. `now()` is an argument.
-- That a statement can fail is modelled where it is called, in Exec.
pub mod Order
pub mod Selected
pub mod LogJobs
pub mod Zones
pub mod Customers
pub mod ApiKeys
pub mod Exports
pub mod Audit
