-- ===== src/Archive/Removal.antt =====
-- The deletion of a record: what becomes of the tables and of the files.
use cqwu_achievement_system.Prelude.{List, String, Bool, true, ◌≡◌, ◌⊎◌, keep, not, str_eq}
use cqwu_achievement_system.Effect.{Result, ok}
use cqwu_achievement_system.Errors.{AppError}
use cqwu_achievement_system.Storage.{Client, DeleteObjectFailure}
use cqwu_achievement_system.Storage.Report.{Accounts}
use cqwu_achievement_system.Tasks.Outbox.Table.{Codec}
use cqwu_achievement_system.Server.{FileRow, Database, Server}
use cqwu_achievement_system.Templates.Frozen.{is_error}
use cqwu_achievement_system.Archive.Deletion.{Accounted}
use cqwu_achievement_system.Archive.Records.{keys_of_record, same_record, any_record}

module _ (record_id template_id : String) where
  -- The tables without the record and its files.
  abbrev pub pruned : Database → Database
  pruned d = record d {
    records = keep (λ r. not (same_record record_id template_id r)) d.records;
    files = keep (λ (f : FileRow). not (str_eq f.record_id record_id)) d.files;
  }

  -- The record is there, and the second tables are the first without it and its files.
  abbrev pub Pruned : Database → Database → Type 0
  Pruned d e = (any_record (same_record record_id template_id) d.records ≡ true) × (e ≡ pruned d)

module _ {S P V : Type 0} (client : Client S) (test : DeleteObjectFailure → Bool)
    (Settled : S → String → Type 0) (accounts : Accounts client test Settled) (codec : Codec P)
    (template_id record_id : String) (w : Server S P V) where
  abbrev keys : List String
  keys = keys_of_record record_id w.database.files

  -- How a deletion ends: with the record and its files gone from the committed tables and every key of
  -- them accounted for; or with an error, the store and the outbox as they were, and the committed
  -- tables as they were or without the record and its files.
  abbrev pub Ended : Result AppError Unit × Server S P V → Type 0
  Ended x =
      ((x.0 ≡ ok tt)
        × Pruned record_id template_id w.database x.1.database
        × Accounted client test Settled accounts codec keys w.outbox (x.1.store, x.1.outbox))
      ⊎ ((is_error x.0 ≡ true)
          × (x.1.store ≡ w.store)
          × (x.1.outbox ≡ w.outbox)
          × ((x.1.database ≡ w.database) ⊎ Pruned record_id template_id w.database x.1.database))
