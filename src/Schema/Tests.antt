-- ===== src/Schema/Tests.antt =====
-- The revisions on a database with one table of its own.
use web_hooks.Base.{◌≡◌, refl, Bool, true, false, some, List, [], ◌∷◌, ◌++◌, All}
use package.web_hooks.Schema.{Table, uuid_key}
use package.web_hooks.Schema.Catalogue.{Postgres, effect, run_all}
use package.web_hooks.Schema.Revisions.{revisions}
use package.web_hooks.Schema.Models.{models}
use package.web_hooks.Schema.Undo.{upgrades, walk, tables_of, revisions_walked}
use package.web_hooks.Schema.Agrees.{Same, find_table, head, revisions-Same}

-- A server that carries out everything.
abbrev obedient : Postgres
obedient = record {
  Catalogue = List Table;
  tables = λ ts. ts;
  run = λ d ts. some (effect d ts);
  run_allowed = λ d ts h. (effect d ts, refl, refl);
}

abbrev own : List Table
own =
    record {
      name = "alembic_version";
      columns = uuid_key ∷ [];
      checks = [];
      uniques = [];
      indexes = [];
    }
    ∷ []

-- Three upgrades, and the last of them undone.
abbrev moves : List Bool
moves = true ∷ true ∷ true ∷ false ∷ []

revisions_walked_example :
    (c' : List Table) × (run_all obedient (walk moves [] revisions).0 own ≡ some c')
    × (c' ≡ tables_of (walk moves [] revisions).1 ++ own)
revisions_walked_example = revisions_walked obedient moves own (
  (refl, refl),
  (
    (refl, refl),
    (
      (refl, refl),
      (refl, ((refl, refl), (refl, ((refl, refl), (refl, (tt, (tt, (tt, (tt, tt))))))))),
    ),
  ),
)

revisions-Same_example :
    (c' : List Table) × (run_all obedient (upgrades revisions) own ≡ some c')
    × (c' ≡ head ++ own)
    × All (λ m. Same m (find_table m.name c')) models
revisions-Same_example = revisions-Same obedient own (
  (refl, refl),
  (
    (refl, refl),
    (
      (refl, refl),
      (
        refl,
        (
          (refl, refl),
          (
            refl,
            ((refl, refl), (refl, (tt, (tt, ((refl, refl), (refl, ((refl, refl), (refl, tt)))))))),
          ),
        ),
      ),
    ),
  ),
)
