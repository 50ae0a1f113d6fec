-- ===== src/Storage/Database/Tables.antt =====
-- What `create_table`, `drop_table` and
-- `get_table` (src/storage/database.cpp) do to the map of a database.
pub mod Shifting
use cpp_db.Base.{
  Returns, Returns-bind, ℕ, zero, suc, ◌+◌, ◌≤◌, ◌<◌, ◌≡◌, ◌≢◌, refl, ap, ◌∙◌, Bool, true, false,
  List, [], ◌∷◌, ◌++◌, Option, none, some, Bytes, codes, str_eq, str_eq_iff, arith, length,
  get_elem?, set, remove_at, All, Bool-cases, inl, inr, All-append, All-remove_at, All-get, subst,
  Option-cases, ◌⊎◌, get_elem?-lt, if◌then◌else◌,
}
use mathlib.Core.List.{foldl, append-nil, append_assoc}
use cpp_db.Storage.Table.{Column, Table, new_table_in, add_column}
use cpp_db.Storage.Index.{Entries}
use cpp_db.Storage.Disk.{FileSystem}
use cpp_db.Storage.Database.{
  Database, find_slot, find_slot_from, create_table, drop_slot, drop_table,
}
use cpp_db.Storage.Database.Slots.{
  Aligned, Distinct, FirstSlot, find_slot_from-FirstSlot, Aligned-append, Aligned-remove_at,
  Aligned-length, Aligned-get, Distinct-append, Distinct-remove_at,
}
use cpp_db.Storage.Database.Tables.Shifting.{drop_slot_lem}
use cpp_db.Storage.Database.View.{
  IsValid, view, table_of, view-append, view_absent, view-remove_at, view_at,
}

-- The table that `create_table` makes.
abbrev pub created : Bytes → Bytes → List Column → Table
created name data_dir columns = record {
  name = name;
  data_path = data_dir ++ (codes "/" ++ (name ++ codes ".dat"));
  columns = columns;
  rows = [];
}

pub foldl-add_column :
    (t : Table) (cs : List Column) → foldl add_column t cs ≡ record t { columns = t.columns ++ cs }
unfolding add_column
foldl-add_column t [] = rw append-nil
foldl-add_column t (c ∷ cs) =
    foldl-add_column (add_column t c) cs ∙ (rw (append_assoc t.columns (c ∷ []) cs))

foldl-created :
    (name data_dir : Bytes) (cs : List Column)
    → foldl add_column (new_table_in name data_dir) cs ≡ created name data_dir cs
unfolding new_table_in
foldl-created name data_dir cs = foldl-add_column (new_table_in name data_dir) cs

-- The database after a `create_table` that made the table: the map has the new table, with no rows and
-- an empty index, under its name, and is unchanged elsewhere.
pub record Created (P : Table → Entries → Type 0) (db : Database) (name : Bytes)
    (columns : List Column) (r : Database × Bool) : Type 0 where
  pub made : r.1 ≡ true
  pub was_absent : table_of db name ≡ none
  pub slots :
      (m : Bytes)
      → table_of r.0 m
        ≡ (if str_eq name m then some (created name db.data_dir columns, []) else table_of db m)
  pub same_dir : r.0.data_dir ≡ db.data_dir
  pub valid : P (created name db.data_dir columns) [] → IsValid P r.0

-- The database after a `drop_table` that found the table: the map has lost the name, and is unchanged
-- elsewhere.
pub record Dropped (P : Table → Entries → Type 0) (db : Database) (name : Bytes) (db' : Database)
    (done : Bool) : Type 0 where
  pub found : done ≡ true
  pub was_present : table_of db name ≢ none
  pub slots : (m : Bytes) → table_of db' m ≡ (if str_eq name m then none else table_of db m)
  pub same_dir : db'.data_dir ≡ db.data_dir
  pub valid : IsValid P db'

module _ (P : Table → Entries → Type 0) (db : Database) (v : IsValid P db) (name : Bytes) where
  -- The position that `get_table` returns is the name's slot, and it returns none exactly if there is
  -- no such slot.
  abbrev pub Answers : Option ℕ → Type 0
  Answers none = (table_of db name ≡ none) × All (λ n. n ≢ name) db.table_names
  Answers (some i) =
      (t : Table) × (e : Entries) × (get_elem? db.table_names i ≡ some name)
      × (get_elem? db.tables i ≡ some t)
      × (get_elem? db.indexes i ≡ some e)
      × (table_of db name ≡ some (t, e))
      × (t.name ≡ name)
      × P t e

  FirstSlot-Answers : (o : Option ℕ) → FirstSlot db.table_names name o → Answers o
  FirstSlot-Answers none h = (view_absent P _ _ _ name v.aligned h, h)
  FirstSlot-Answers (some i) h =
      let (t, e, gt, ge, same, p) = Aligned-get P _ _ _ i h v.aligned in
      (t, e, h, gt, ge, view_at P _ _ _ i name t e v.aligned v.distinct h gt ge, same, p)

  -- On a valid database `get_table` and `get_index` give the position of the named table and of its
  -- index, where the map from names to tables has them, and nothing exactly if it has no such name.
  pub find_slot-Answers : Answers (find_slot db name)
  unfolding find_slot
  find_slot-Answers = FirstSlot-Answers _ (find_slot_from-FirstSlot db.table_names name)

  -- What `create_table` does when no table has the name, and when one has.
  abbrev pub CreateOutcome : List Column → Database × Bool → Type 0
  CreateOutcome columns r =
      Created P db name columns r ⊎ ((table_of db name ≢ none) × (r ≡ (db, false)))

  -- `create_table` makes the table exactly if the name is free: the map from names to tables then
  -- has the new table with the given columns, no rows and an empty index at that name, is unchanged at
  -- every other name, and the vectors stay aligned with distinct names. Otherwise the call returns
  -- false and changes nothing.
  pub create_table-CreateOutcome :
      (columns : List Column) → CreateOutcome columns (create_table db name columns)
  unfolding create_table
  create_table-CreateOutcome columns =
      (elim (find_slot db name)
          as (λ o.
            Answers o
            → CreateOutcome columns (elim o [
              | some i ↦ (db, false)
              | none ↦ (
                record db {
                  tables =
                      db.tables ++ foldl add_column (new_table_in name db.data_dir) columns ∷ [];
                  indexes = db.indexes ++ [] ∷ [];
                  table_names = db.table_names ++ name ∷ [];
                },
                true,
              )
            ])) [
              | some i ↦ λ (t, e, _, _, _, at, _, _). inr ((λ n. cc), refl)
              | none ↦ λ (absent, free). rw foldl-created (
                  inl (record {
                    made = refl;
                    was_absent = absent;
                    slots = λ m. view-append P _ _ _ name _ [] m v.aligned free;
                    same_dir = refl;
                    valid = λ p. record {
                      aligned =
                          Aligned-append P _ _ _ (created name db.data_dir columns) [] p v.aligned;
                      distinct = Distinct-append _ name free v.distinct;
                    };
                  }))
            ])
        find_slot-Answers

  drop_slot-Dropped :
      (i : ℕ)
      → get_elem? db.table_names i ≡ some name
      → table_of db name ≢ none
      → Returns (drop_slot db i) (λ db'. Dropped P db name db' true)
  drop_slot-Dropped i g there =
      rw (drop_slot_lem db i (Aligned-length P _ _ _ v.aligned) (get_elem?-lt _ i g)) (record {
        found = refl;
        was_present = there;
        slots = λ m. view-remove_at P _ _ _ i name m v.aligned v.distinct g;
        same_dir = refl;
        valid = record {
          aligned = Aligned-remove_at P _ _ _ i v.aligned;
          distinct = Distinct-remove_at _ i v.distinct;
        };
      })

  module _ (fs : FileSystem) (disk : fs.Disk) where
    -- What `drop_table` does when a table has the name, and when none has.
    abbrev pub DropOutcome : Database × fs.Disk × Bool → Type 0
    DropOutcome r =
        Dropped P db name r.0 r.2 ⊎ ((table_of db name ≡ none) × (r.0 ≡ db) × (r.2 ≡ false))

    -- `drop_table` ends without an access outside the vectors and returns true exactly if a table has the name: the map from names to tables then has
    -- lost that name, is unchanged at every other name, and the vectors stay aligned with distinct
    -- names. Otherwise the call returns false and leaves the database as it is.
    pub drop_table-DropOutcome : Returns (drop_table fs db disk name) DropOutcome
    unfolding drop_table
    drop_table-DropOutcome = elim (Option-cases (find_slot db name)) [
      | inl e ↦
          rw (e, drop_table)
            (inr (let h : Answers none = rw e at find_slot-Answers in (h.0, refl, refl)))
      | inr (i, e) ↦
          rw (e, drop_table)
            (let h : Answers (some i) = rw e at find_slot-Answers in
              Returns-bind (drop_slot db i) _ (λ db'. Dropped P db name db' true) DropOutcome
                (drop_slot-Dropped i h.2 (λ n. ground (arith, h.5))) (λ db' k. inl k))
    ]
