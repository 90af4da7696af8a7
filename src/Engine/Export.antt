-- ===== src/Engine/Export.antt =====
-- src/storage_engine/StorageEngine.cpp: exportAllToJson. What the file system does is an argument; the
-- state is the text of the temporary file and of the final one, `none` for a file that is not there.
pub mod Texts
use anu_db.Base.{
  ℕ, zero, suc, ◌+◌, Bool, true, false, List, [], ◌∷◌, ◌++◌, Option, none, some, Bytes, codes,
  lookup, if◌then◌else◌, eqb, take,
}
use anu_db.Status
use anu_db.Status.{Status}
use anu_db.Exec.{
  Exec, Result, returns, stops, Try, gives, throws, ◌>>=◌, ◌>>◌, ◌>>?◌, pure, lift, from_result,
}
use anu_db.Json.{Json}
use anu_db.RocksDb.{RocksDb}
use anu_db.Engine.{Engine, no_collection}

-- stat() of a path.
pub data Stat : Type 0 where
  missing : Stat
  directory : Stat
  other : Stat

-- The file system's answers, and whether the iterator ended without an error. `cut` is the number of
-- bytes of a text that still fit after the old ones, `none` where all of them do.
pub record Disk : Type 0 where
  pub stat_of : Bytes → Stat
  pub can_make : Bytes → Bool
  pub can_open : Bytes → Bool
  pub cut : Bytes → Bytes → Option ℕ
  pub iterator_ok : Bool
  pub can_rename : Bool

-- The two files, and whether the stream that writes the first has failed.
pub record Files : Type 0 where
  pub dump_file : Option Bytes
  pub final_file : Option Bytes
  pub bad : Bool

abbrev is_slash : ℕ → Bool
is_slash c = if eqb c b'/' then true else eqb c b'\\'

abbrev consed : ℕ → Option Bytes → Option Bytes
consed c none = none
consed c (some s) = some (c ∷ s)

-- exportPath.substr(0, find_last_of("/\\")), if there is a slash.
unfoldable pub directory_of : Bytes → Option Bytes
directory_of [] = none
directory_of (c ∷ cs) =
    let rest = directory_of cs in
    elim rest [ some d ↦ some (c ∷ d) | none ↦ if is_slash c then some [] else none ]

-- The status of a directory that cannot be used.
checked : Disk → Bytes → Stat → Option Status
checked d path missing =
    if d.can_make path
    then none
    else some (Status.io_error (codes "Failed to create directory: " ++ path))
checked d path directory = none
checked d path other = some (Status.io_error (codes "Path exists but is not a directory: " ++ path))

directory_status : Disk → Option Bytes → Option Status
unfolding checked
directory_status d none = none
directory_status d (some path) = checked d path (d.stat_of path)

abbrev old_text : Option Bytes → Bytes
old_text none = []
old_text (some old) = old

abbrev put_text : Option ℕ → Bytes → Bytes → Files → Files
put_text none old text f = record f { dump_file = some (old ++ text) }
put_text (some n) old text f = record f { dump_file = some (old ++ take n text); bad = true }

-- file << text: a stream that has failed writes nothing, and no call looks whether it has.
unfoldable pub write : Disk → Bytes → Exec Files (Unit {0})
write d text f =
    let old = old_text f.dump_file in
    (returns tt, if f.bad then f else put_text (d.cut old text) old text f)

abbrev pub set_files : (Files → Files) → Exec Files (Unit {0})
set_files change f = (returns tt, change f)

-- std::remove of the final file, and std::rename of the temporary one to it.
renamed : Disk → Exec Files Status
renamed d =
    let move = do
      set_files (λ f. record f { dump_file = none; final_file = f.dump_file })
      pure Status.ok
    in do
      set_files (λ f. record f { final_file = none })
      if d.can_rename
          then move
          else pure (Status.io_error (codes "Failed to rename dump file to final JSON file"))

finished : Disk → Exec Files Status
unfolding renamed
finished d =
    let failed = do
      set_files (λ f. record f { dump_file = none })
      pure (Status.internal_error (codes "Unable to export json file"))
    in if d.iterator_ok then renamed d else failed

-- `dump_indented` is dump(4) of the JSON library, which throws on a string that is not UTF-8.
module _ ⦃R : RocksDb⦄ ⦃J : Json⦄ (dump_indented : J.Value → Try Bytes) where
  -- json::from_msgpack(value)["data"].dump(4)
  unfoldable pub rendered : Bytes → Try Bytes
  rendered value = J.from_msgpack value >>? λ j. J.at_key j (codes "data") >>? λ d. dump_indented d

  -- The comma is written before the value is read.
  unfoldable pub write_entries : Disk → ℕ → Bool → R.Iterator → Exec Files (Unit {0})
  unfolding rendered write
  write_entries d zero first i = from_result stops
  write_entries d (suc fuel) first i =
      let rest = write_entries d fuel false (R.next i) in
      let entry = do
        if first then pure tt else write d (codes ",\n")
        text ← lift (rendered (R.value i))
        write d text
        rest
      in if R.valid i then entry else pure tt

  export_at : ℕ → Option R.Handle → Engine R → Bytes → Disk → Exec Files Status
  unfolding write_entries write finished
  export_at fuel none e name d = pure (no_collection name)
  export_at fuel (some h) e name d = do
    write_entries d fuel true (R.seek_to_first (R.new_iterator e.world h))
    write d (codes "\n]")
    finished d

  export_opened : ℕ → Engine R → Bytes → Disk → Exec Files Status
  unfolding export_at write
  export_opened fuel e name d = do
    set_files (λ f. record f { dump_file = some []; bad = false })
    write d (codes "[\n")
    export_at fuel (lookup name e.column_families) e name d

  export_into : ℕ → Engine R → Bytes → Bytes → Disk → Option Status → Exec Files Status
  unfolding export_opened
  export_into fuel e name path d (some status) = pure status
  export_into fuel e name path d none =
      let temp = path ++ (codes "/" ++ (name ++ codes ".dump")) in
      if d.can_open temp
      then export_opened fuel e name d
      else pure (Status.io_error (codes "Failed to open file for writing: " ++ temp))

  unfoldable pub export_all_to_json : ℕ → Engine R → Bytes → Bytes → Disk → Exec Files Status
  unfolding export_into directory_status directory_of
  export_all_to_json fuel e name path d =
      export_into fuel e name path d (directory_status d (directory_of path))
