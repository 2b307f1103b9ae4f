-- ===== src/Control/Schema.antt =====
-- The schema of tlgs/tlgs_ctl/main.cpp, made once and again.
use tlgs.Common.{
  ◌≡◌, refl, ap, ◌∙◌, sym, Bool, true, false, List, [], ◌∷◌, ◌++◌, Option, none, some, Bytes, codes,
  Option-cases, inl, inr,
}
use tlgs.Control.{
  Statement, create_index, first_statements, last_statements, schema, execute_all, create_db,
}
use tlgs.Common.Options.{some-inj, bind-some}

-- What PostgreSQL does with names: no statement of these kinds drops a relation, a new one is there
-- when its statement has been executed, and an index whose name is taken is refused unless IF NOT
-- EXISTS is written.
pub record NamesRelations {Db : Type 0} (execute : Statement → Db → Option Db)
    (has : Bytes → Db → Bool) : Type 0 where
  pub keeps :
      (statement : Statement) (name : Bytes) (db db' : Db)
      → execute statement db ≡ some db'
      → has name db ≡ true
      → has name db' ≡ true
  pub made :
      (if_not_exists : Bool) (name table by : Bytes) (db db' : Db)
      → execute (create_index if_not_exists name table by) db ≡ some db'
      → has name db' ≡ true
  pub refused :
      (name table by : Bytes) (db : Db)
      → has name db ≡ true
      → execute (create_index false name table by) db ≡ none

module _ {Db : Type 0} (execute : Statement → Db → Option Db) (has : Bytes → Db → Bool)
    (law : NamesRelations execute has) where
  execute_all-keeps :
      (statements : List Statement) (name : Bytes) (db db' : Db)
      → execute_all execute statements db ≡ some db'
      → has name db ≡ true
      → has name db' ≡ true
  unfolding execute_all
  execute_all-keeps [] name db db' e h = ap (has name) (sym (some-inj db db' e)) ∙ h
  execute_all-keeps (statement ∷ statements) name db db' e h =
      let (db₁, e₁, e₂) = bind-some (execute statement db) _ db' e in
      execute_all-keeps statements name db₁ db' e₂ (law.keeps statement name db db₁ e₁ h)

  -- A taken name of an index further on makes the whole fail.
  execute_all-refused :
      (before after : List Statement) (name table by : Bytes) (db : Db)
      → has name db ≡ true
      → execute_all execute (before ++ create_index false name table by ∷ after) db ≡ none
  unfolding execute_all
  execute_all-refused [] after name table by db h = rw (law.refused name table by db h) refl
  execute_all-refused (statement ∷ before) after name table by db h =
      elim (Option-cases (execute statement db)) [
        | inl e ↦ rw (e) refl
        | inr (db₁, e) ↦ rw (e) (
            execute_all-refused before after name table by db₁
              (law.keeps statement name db db₁ e h))
      ]

  execute_all-made :
      (before after : List Statement) (if_not_exists : Bool) (name table by : Bytes) (db db' : Db)
      → execute_all execute (before ++ create_index if_not_exists name table by ∷ after) db
        ≡ some db'
      → has name db' ≡ true
  unfolding execute_all
  execute_all-made [] after if_not_exists name table by db db' e =
      let (db₁, e₁, e₂) =
        bind-some (execute (create_index if_not_exists name table by) db) _ db' e in
      execute_all-keeps after name db₁ db' e₂ (law.made if_not_exists name table by db db₁ e₁)
  execute_all-made (statement ∷ before) after if_not_exists name table by db db' e =
      let (db₁, e₁, e₂) = bind-some (execute statement db) _ db' e in
      execute_all-made before after if_not_exists name table by db₁ db' e₂

-- If a database that knows the names of its relations has executed the schema, it refuses to
-- execute the schema, which is to update a database too, a second time.
pub create_db-again :
    {Db : Type 0} (execute : Statement → Db → Option Db) (has : Bytes → Db → Bool) (db db' : Db)
    → NamesRelations execute has
    → create_db execute db ≡ some db'
    → create_db execute db' ≡ none
unfolding create_db schema
create_db-again execute has db db' law e =
    execute_all-refused execute has law first_statements last_statements (codes "source_url_index")
      (codes "links") (codes "btree (url)") db'
      (execute_all-made execute has law first_statements last_statements false
        (codes "source_url_index") (codes "links") (codes "btree (url)") db db' e)
