-- ===== src/RocksDb/Memory.antt =====
-- A database in memory, which meets `IsReliable`.
use agro_diamond_compliance.Prelude.{[], refl, reverse}
use agro_diamond_compliance.Action.{ok}
use agro_diamond_compliance.RocksDb.{RocksDb, IsReliable}
use agro_diamond_compliance.RocksDb.Entries.{
  Rows, lookup, insert, erase, from, below, IsSorted, insert-IsSorted, erase-IsSorted,
}

abbrev pub Table : Type 0
Table = (m : Rows) × IsSorted m

abbrev pub memory : RocksDb
memory = record {
  State = Table;
  get = λ k s. ok (lookup k s.0) s;
  put = λ k v s. ok tt (insert k v s.0, insert-IsSorted k v s.0 s.1);
  delete = λ k s. ok tt (erase k s.0, erase-IsSorted k s.0 s.1);
  seek = λ s k. from k s.0;
  seek_back = λ s k. reverse (below k s.0);
}

abbrev pub memory-IsReliable : IsReliable memory
memory-IsReliable = record {
  entries = λ s. s.0;
  write = λ k v s. (insert k v s.0, insert-IsSorted k v s.0 s.1);
  remove = λ k s. (erase k s.0, erase-IsSorted k s.0 s.1);
  get_lem = λ k s. refl;
  put_lem = λ k v s. refl;
  delete_lem = λ k s. refl;
  seek_lem = λ s k. refl;
  seek_back_lem = λ s k. refl;
  entries-write = λ k v s. refl;
  entries-remove = λ k s. refl;
  entries-IsSorted = λ s. s.1;
}

abbrev pub empty : Table
empty = ([], tt)
