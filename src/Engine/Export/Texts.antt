-- ===== src/Engine/Export/Texts.antt =====
-- The text of the file that exportAllToJson leaves.
use anu_db.Base.{
  ℕ, zero, suc, ◌<◌, ◌≡◌, ◌∙◌, sym, ap, Bool, true, false, List, [], ◌∷◌, ◌++◌, Option, none, some,
  Bytes, codes, lookup, length, arith, append_assoc, append-nil,
}
use anu_db.Status
use anu_db.Exec.{returns, Try, gives}
use anu_db.Json.{Json}
use anu_db.RocksDb.{RocksDb}
use anu_db.RocksDb.Table.{Entry}
use anu_db.RocksDb.Contract.{IsLawful}
use anu_db.Engine.{Engine}
use anu_db.Engine.Export.{
  Disk, Files, rendered, write_entries, export_all_to_json, export_into, export_opened, export_at,
  write, finished, renamed, Stat, checked, directory_status, directory_of,
}

-- The texts with a comma before each but the first.
abbrev pub listed : Bool → List Bytes → Bytes
listed first [] = []
listed true (t ∷ ts) = t ++ listed false ts
listed false (t ∷ ts) = codes ",\n" ++ (t ++ listed false ts)

module _ ⦃R : RocksDb⦄ ⦃J : Json⦄ (dump_indented : J.Value → Try Bytes) where
  -- The values of the entries decode to documents with these texts.
  abbrev pub Renders : List Entry → List Bytes → Type 0
  Renders [] [] = Unit
  Renders [] (t ∷ ts) = ⊥
  Renders (e ∷ es) [] = ⊥
  Renders (e ∷ es) (t ∷ ts) = (rendered dump_indented e.1 ≡ gives t) × Renders es ts

  module _ (L : IsLawful R) where
    write_entries_lem :
        (d : Disk) (fuel : ℕ) (first : Bool) (i : R.Iterator) (es : List Entry) (ts : List Bytes)
        (old : Bytes) (final : Option Bytes)
        → ((o t : Bytes) → d.cut o t ≡ none)
        → L.ahead i ≡ es
        → Renders es ts
        → length es < fuel
        → write_entries dump_indented d fuel first i
            (record { dump_file = some old; final_file = final; bad = false })
          ≡ (
            returns tt,
            record { dump_file = some (old ++ listed first ts); final_file = final; bad = false },
          )
    unfolding write_entries write
    write_entries_lem d zero first i es ts old final z a r l = absurd (omega arith)
    write_entries_lem d (suc fuel) first i [] [] old final z a r l =
        rw (L.valid_ahead i, a)
          (ap (λ b. (returns tt, record { dump_file = some b; final_file = final; bad = false }))
            (sym (append-nil old)))
    write_entries_lem d (suc fuel) first i [] (t ∷ ts) old final z a r l = absurd r
    write_entries_lem d (suc fuel) first i (e ∷ es) [] old final z a r l = absurd r
    write_entries_lem d (suc fuel) true i ((k, v) ∷ es) (t ∷ ts) old final z a r l =
        let (_, value, next) = L.at_ahead i k v es a in
        rw (L.valid_ahead i, a, value, r.0, z old t)
          (write_entries_lem d fuel false (R.next i) es ts (old ++ t) final z next r.1 (omega arith)
            ∙ ap (λ b. (returns tt, record { dump_file = some b; final_file = final; bad = false }))
                (append_assoc old t (listed false ts)))
    write_entries_lem d (suc fuel) false i ((k, v) ∷ es) (t ∷ ts) old final z a r l =
        let (_, value, next) = L.at_ahead i k v es a in
        rw (L.valid_ahead i, a, z old (codes ",\n"), value, r.0, z (old ++ codes ",\n") t)
          (write_entries_lem d fuel false (R.next i) es ts ((old ++ codes ",\n") ++ t) final z next
              r.1 (omega arith)
            ∙ ap (λ b. (returns tt, record { dump_file = some b; final_file = final; bad = false }))
                (append_assoc (old ++ codes ",\n") t (listed false ts)
                  ∙ append_assoc old (codes ",\n") (t ++ listed false ts)))

    -- An export of a collection whose entries all decode and print, to a directory that exists,
    -- where the file can be opened, takes all that is written, and can be renamed, and the iterator
    -- ends without an error, returns OK and leaves a final file with the array of the texts in key
    -- order, and no temporary file.
    pub export_all_to_json_lem :
        (fuel : ℕ) (e : Engine R) (name path dir : Bytes) (d : Disk) (h : R.Handle)
        (ts : List Bytes) (files : Files)
        → directory_of path ≡ some dir
        → d.stat_of dir ≡ Stat.directory
        → d.can_open (path ++ (codes "/" ++ (name ++ codes ".dump"))) ≡ true
        → ((o t : Bytes) → d.cut o t ≡ none)
        → d.iterator_ok ≡ true
        → d.can_rename ≡ true
        → lookup name e.column_families ≡ some h
        → L.Live e.world h
        → Renders (L.contents e.world h) ts
        → length (L.contents e.world h) < fuel
        → export_all_to_json dump_indented fuel e name path d files ≡ (
          returns Status.ok,
          record {
            dump_file = none;
            final_file = some (codes "[\n" ++ (listed true ts ++ codes "\n]"));
            bad = false;
          },
        )
    unfolding export_all_to_json export_into export_opened export_at write finished renamed
        directory_status checked
    export_all_to_json_lem fuel e name path dir d h ts files p s o z i n f l r m = rw (
      p,
      s,
      o,
      z [] (codes "[\n"),
      f,
      write_entries_lem d fuel true (R.seek_to_first (R.new_iterator e.world h))
          (L.contents e.world h) ts (codes "[\n") files.final_file z
          (L.ahead-seek_to_first _ ∙ L.snapshot-new_iterator e.world h l) r m,
      z _ (codes "\n]"),
      i,
      n,
    )
