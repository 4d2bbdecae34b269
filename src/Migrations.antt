-- ===== src/Migrations.antt =====
-- RunMigrations of migrations.go. The migration library and the drivers are parameters.
use Prim.Native.String.{◌++◌ as append}
use text.Mathlib.Text.{starts_with}
use go_webhook_processor.Prelude.{
  String, Option, none, some, List, [], ◌∷◌, ◌⊎◌, inl, inr, if◌then◌else◌,
}
use go_webhook_processor.Store.Monad.{failed_to, Result, ok, err}

-- What `Up` answers when it does not apply the migrations.
pub data UpError : Type 0 where
  no_change : UpError
  broken : String → UpError

-- Each call answers nil or an error text; `abs` answers an error text or a path.
pub record Tools : Type 0 where
  pub abs : String → String ⊎ String  -- filepath.Abs
  pub open_db : String → Option String  -- sql.Open
  pub ping : Option String
  pub with_instance : Option String  -- pgx.WithInstance
  pub to_slash : String → String  -- filepath.ToSlash
  pub file_url : String → String  -- url.URL.String of a path under the scheme file
  pub new_migrator : String → Option String  -- migrate.NewWithDatabaseInstance
  pub up : String → Option UpError

-- What has been closed when the function returns, in order.
pub data Closed : Type 0 where
  database migrator : Closed

module _ (t : Tools) where
  abbrev failed : String → String → List Closed → Result (Unit {0}) × List Closed
  failed context cause closed = (err (failed_to context cause), closed)

  abbrev pub source_path : String → String
  source_path absolute =
      let path = t.to_slash absolute in if starts_with path "/" then path else append "/" path

  unfoldable pub run_migrations : String → String → Result (Unit {0}) × List Closed
  run_migrations database_url migrations_path = elim (t.abs migrations_path) [
    | inl e ↦ failed "resolve migrations path" e []
    | inr absolute ↦ elim (t.open_db database_url) [
      | some e ↦ failed "open migration database" e []
      | none ↦ elim t.ping [
        | some e ↦ failed "ping migration database" e (database ∷ [])
        | none ↦ elim t.with_instance [
          | some e ↦ failed "create migration driver" e (database ∷ [])
          | none ↦
              let source_url = t.file_url (source_path absolute) in
              elim (t.new_migrator source_url) [
                | some e ↦ failed "initialize migrations" e (database ∷ [])
                | none ↦ elim (t.up source_url) [
                  | none ↦ (ok tt, migrator ∷ database ∷ [])
                  | some no_change ↦ (ok tt, migrator ∷ database ∷ [])
                  | some (broken e) ↦ failed "apply migrations" e (migrator ∷ database ∷ [])
                ]
              ]
        ]
      ]
    ]
  ]
