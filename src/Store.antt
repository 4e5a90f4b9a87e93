-- ===== src/Store.antt =====
-- store/store.go: the persistence contract, as far as replication uses it: an interface over the
-- driver's state. The SQLite driver is the module below.
pub mod Sqlite
pub mod ChainOrder
pub mod Rebuilt
pub mod Rows
pub mod Coherent
pub mod NewRow
pub mod Durable
pub mod Batches
pub mod Restarted
pub mod Unstored
pub mod Handed
pub mod Grown
use lamdis.Prelude.{String, List}
use lamdis.Exec.{Exec}
use lamdis.Log.Entry.{Entry}
use lamdis.Log.ThreadLog.{ThreadLog}

pub record Store (S : Type 0) : Type 0 where
  pub append_entries : List Entry → Exec S (Unit {0})
  pub thread : String → Exec S ThreadLog
  pub threads : Exec S (List String)
