-- ===== src/Execution/Modify/Effects.antt =====
-- The handlers that change one table (src/execution/executor.cpp): what becomes of the database,
-- given what the work does to the table.
use cpp_db.Base.{
  ℕ, ◌≡◌, ◌≢◌, refl, [], none, some, Bytes, get_elem?, Returns, ap, sym, subst, ◌∙◌, ◌⊎◌, inl, inr,
}
use cpp_db.Storage.Table.{Table}
use cpp_db.Storage.Index.{Entries}
use cpp_db.Storage.Database.{Database}
use cpp_db.Storage.Database.Slots.{Aligned-set}
use cpp_db.Storage.Database.View.{IsValid, table_of, view-set}
use cpp_db.Execution.State.{
  Executor, ExecResult, result_ok, result_error, Check, done, fail, ◌>>=◌, conclude, Slot,
  require_table, put_slot, modify,
}
use cpp_db.Execution.Outcome.{Safe, Ends}
use cpp_db.Execution.Modify.{DbReady, IsReady, Effect, Works, Modified, Refused}
use cpp_db.Execution.Modify.Checks.{
  conclude-Ends, conclude-Safe, conclude-bind, require_db_open, require_db_closed,
  require_table-Safe, require_table_found,
}

module _ {Disk : Type 0} (P : Table → Entries → Type 0) (Q : Effect) (x : Executor Disk)
    (name : Bytes) (work : Slot → Check (Slot × Bytes)) where
  finish : Database → Slot × Bytes → Executor Disk × ExecResult
  finish db (s, msg) = (record x { current_db = some (put_slot db s) }, result_ok msg)

  finish-Modified :
      (db : Database) (i : ℕ) (t : Table) (e : Entries) (r : Slot × Bytes)
      → x.current_db ≡ some db
      → x.current_db_name ≢ []
      → IsValid P db
      → get_elem? db.table_names i ≡ some name
      → t.name ≡ name
      → table_of db name ≡ some (t, e)
      → Works P Q (record { at = i; table = t; index = e }) r
      → Modified P Q x name (finish db r)
  unfolding finish
  finish-Modified db i t e (s, msg) u nn v g tn f (at, same, p, q) = rw at (record {
    db = db;
    db' = put_slot db (record s { at = i });
    table = t;
    index = e;
    table' = s.table;
    index' = s.index;
    message = msg;
    in_use = u;
    found = f;
    effect = q;
    result = refl;
    state = refl;
    slots = λ m. view-set P _ _ _ i name m s.table s.index v.aligned v.distinct g;
    ready = (
      nn,
      record {
        aligned = Aligned-set P _ _ _ i s.table s.index (g ∙ ap some (sym (same ∙ tn))) p v.aligned;
        distinct = v.distinct;
      },
    );
  })

module _ {Disk : Type 0} (P : Table → Entries → Type 0) (Q : Effect) (x : Executor Disk)
    (name : Bytes) (work : Slot → Check (Slot × Bytes)) where
  -- Where the work ends for the named table, the handler succeeds.
  pub modify-Modified :
      (db : Database) (t : Table) (e : Entries)
      → IsReady P x
      → x.current_db ≡ some db
      → table_of db name ≡ some (t, e)
      → ((i : ℕ)
          → P t e
          → Ends
              (work (record { at = i; table = t; index = e }))
              (Works P Q (record { at = i; table = t; index = e })))
      → Returns (modify x name work) (Modified P Q x name)
  unfolding modify finish
  modify-Modified db t e ready u f w =
      let (nn, v) = open_ready in
      let (i, r, gn, tn, p) = require_table_found P db name t e v f in
      rw (modify, require_db_open x db u nn, r)
        (conclude-Ends x (work (record { at = i; table = t; index = e }))
          (finish P Q x name work db) (Works P Q (record { at = i; table = t; index = e }))
          (Modified P Q x name) (w i p)
          (λ r h. finish-Modified P Q x name work db i t e r u nn v gn tn f h))
    where
      open_ready : (x.current_db_name ≢ []) × IsValid P db
      open_ready = subst (DbReady P x.current_db_name) u ready

  -- Where the work does not fault for any table, neither does the handler: it succeeds, or returns an
  -- error and changes nothing.
  pub modify-Safe :
      IsReady P x
      → ((db : Database) (s : Slot)
          → x.current_db ≡ some db
          → table_of db name ≡ some (s.table, s.index)
          → P s.table s.index
          → Safe (work s) (Works P Q s))
      → Returns (modify x name work) (λ r. Modified P Q x name r ⊎ Refused x r)
  unfolding modify finish
  modify-Safe ready w =
      (elim x.current_db
          as (λ o.
            x.current_db ≡ o
            → DbReady P x.current_db_name o
            → Returns (modify x name work) (λ r. Modified P Q x name r ⊎ Refused x r)) [
              | none ↦
                  λ u n. let (msg, e) = require_db_closed x n in rw (modify, e) (inr (refl, refl))
              | some db ↦ λ u (nn, v). rw (modify, require_db_open x db u nn) (opened db u nn v)
            ])
        refl ready
    where
      opened :
          (db : Database)
          → x.current_db ≡ some db
          → x.current_db_name ≢ []
          → IsValid P db
          → Returns
              (conclude x
                (require_table db name >>= λ s. work s >>= λ r. done (finish P Q x name work db r)))
              (λ r. Modified P Q x name r ⊎ Refused x r)
      opened db u nn v =
          conclude-bind x (require_table db name) _ _ _ (require_table-Safe P db name v)
            (λ s (gn, tn, f, p).
              conclude-Safe x (work s) (finish P Q x name work db) (Works P Q s) _ (w db s u f p)
                (λ r h.
                  inl (finish-Modified P Q x name work db s.at s.table s.index r u nn v gn tn f h))
                (λ msg. inr (refl, refl)))
            (λ msg. inr (refl, refl))

-- Where the work is refused for the named table, the handler returns the error and changes nothing.
pub modify_refuses :
    {Disk : Type 0} (P : Table → Entries → Type 0) (x : Executor Disk) (name : Bytes)
    (work : Slot → Check (Slot × Bytes)) (db : Database) (t : Table) (e : Entries) (msg : Bytes)
    → IsReady P x
    → x.current_db ≡ some db
    → table_of db name ≡ some (t, e)
    → ((i : ℕ) → P t e → work (record { at = i; table = t; index = e }) ≡ fail msg)
    → modify x name work ≡ some (x, result_error msg)
unfolding modify
modify_refuses P x name work db t e msg ready u f w =
    let (nn, v) = subst (DbReady P x.current_db_name) u ready in
    let (i, r, gn, tn, p) = require_table_found P db name t e v f in
    rw (modify, require_db_open x db u nn, r, w i p)
