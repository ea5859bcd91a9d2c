-- ===== src/RocksDb.antt =====
-- RocksDB as the store uses it through `grocksdb`: an unknown state with reads and writes that may
-- fail, and iterators. `IsReliable` is what the package documents when no call fails.
pub mod Entries
pub mod Scan
pub mod Backward
pub mod Total
pub mod Memory
use agro_diamond_compliance.Prelude.{◌≡◌, Option, List, reverse}
use agro_diamond_compliance.Bytes.{Bytes}
use agro_diamond_compliance.Json.{Object}
use agro_diamond_compliance.Action.{Action, ok}
use Entries.{Value, Rows, lookup, insert, erase, IsSorted, from, below}

pub record RocksDb : Type 1 where
  pub State : Type 0
  -- `db.Get(ro, key)`; `none` where `!data.Exists()`
  pub get : Bytes → Action State (Option Value)
  -- `db.Put(wo, key, value)`
  pub put : Bytes → Value → Action State (Unit {0})
  -- `db.Delete(wo, key)`
  pub delete : Bytes → Action State (Unit {0})
  -- The rows that a new iterator visits by `Seek(key)` and then `Next` while it is valid.
  pub seek : State → Bytes → Rows
  -- The rows that it visits by `Seek(key)`, one `Prev` (`SeekToLast` if the seek was not valid),
  -- and then `Prev` while it is valid.
  pub seek_back : State → Bytes → Rows

pub record IsReliable (db : RocksDb) : Type 0 where
  pub entries : db.State → Rows
  pub write : Bytes → Value → db.State → db.State
  pub remove : Bytes → db.State → db.State
  pub get_lem : (k : Bytes) (s : db.State) → db.get k s ≡ ok (lookup k (entries s)) s
  pub put_lem : (k : Bytes) (v : Value) (s : db.State) → db.put k v s ≡ ok tt (write k v s)
  pub delete_lem : (k : Bytes) (s : db.State) → db.delete k s ≡ ok tt (remove k s)
  pub seek_lem : (s : db.State) (k : Bytes) → db.seek s k ≡ from k (entries s)
  pub seek_back_lem : (s : db.State) (k : Bytes) → db.seek_back s k ≡ reverse (below k (entries s))
  pub entries-write :
      (k : Bytes) (v : Value) (s : db.State) → entries (write k v s) ≡ insert k v (entries s)
  pub entries-remove : (k : Bytes) (s : db.State) → entries (remove k s) ≡ erase k (entries s)
  pub entries-IsSorted : (s : db.State) → IsSorted (entries s)
