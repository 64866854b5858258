-- ===== src/Schema/Agrees.antt =====
-- The revisions make the tables that the models declare.
use package.text.Mathlib.Text.{◌==◌}
use package.text.Mathlib.TextEquality.{eq_iff}
use Prim.Native.String.{String}
use web_hooks.Base.{
  ◌≡◌, refl, ◌∙◌, ap, sym, true, false, Option, none, some, List, [], ◌∷◌, ◌++◌, All, if◌then◌else◌,
  arith, subst,
}
use package.web_hooks.Schema.{Column, Table, optional, integer, created, required, uuid_key, text}
use package.web_hooks.Schema.Tables.{tenants}
use package.web_hooks.Schema.Revisions.{revisions}
use package.web_hooks.Schema.Models.{tenant_model, models}
use package.web_hooks.Schema.Catalogue.{Postgres, effects, run_all, run_all_allowed}
use package.web_hooks.Schema.Frame.{AreApart, allowed_all-append}
use package.web_hooks.Schema.Undo.{upgrades}

abbrev pub find_column : String → List Column → Option Column
find_column n [] = none
find_column n (c ∷ cs) = let rest = find_column n cs in if c.name == n then some c else rest

abbrev pub find_table : String → List Table → Option Table
find_table n [] = none
find_table n (t ∷ ts) = let rest = find_table n ts in if t.name == n then some t else rest

-- The same columns, in whatever order, and the same constraints and indexes.
abbrev pub Same : Table → Option Table → Type 0
Same m none = ⊥
Same m (some t) =
    ((n : String) → find_column n t.columns ≡ find_column n m.columns)
    × (t.checks ≡ m.checks)
    × (t.uniques ≡ m.uniques)
    × (t.indexes ≡ m.indexes)

abbrev limited_tenants : Table
limited_tenants = record tenants {
  columns =
      tenants.columns ++ optional "rate_per_sec" integer ∷ optional "max_inflight" integer ∷ [];
}

abbrev pub head : List Table
head = effects (upgrades revisions) []

-- Two columns of different names may change places.
find_column-swap :
    (n : String) (c d : Column) (cs : List Column)
    → (c.name == d.name) ≡ false
    → find_column n (c ∷ d ∷ cs) ≡ find_column n (d ∷ c ∷ cs)
find_column-swap n c d cs ne =
    ground (arith, ne, eq_iff c.name n, eq_iff d.name n, eq_iff c.name d.name)

find_column-append :
    (n : String) (front cs ds : List Column)
    → find_column n cs ≡ find_column n ds
    → find_column n (front ++ cs) ≡ find_column n (front ++ ds)
find_column-append n [] cs ds e = e
find_column-append n (c ∷ front) cs ds e =
    ap (λ o. if c.name == n then some c else o) (find_column-append n front cs ds e)

abbrev front : List Column
front =
    uuid_key ∷ required "name" text ∷ record (required "api_key_hash" text) { unique = true } ∷ []

abbrev rate : Column
rate = optional "rate_per_sec" integer

abbrev cap_column : Column
cap_column = optional "max_inflight" integer

abbrev time : Column
time = created "created_at"

-- The limits were added last, and stand before the time of the creation in the model.
limits_last :
    (n : String) → find_column n limited_tenants.columns ≡ find_column n tenant_model.columns
limits_last n =
    find_column-append n front (time ∷ rate ∷ cap_column ∷ []) (rate ∷ cap_column ∷ time ∷ []) (
      find_column-swap n time rate (cap_column ∷ []) refl
      ∙ find_column-append n (rate ∷ []) (time ∷ cap_column ∷ []) (cap_column ∷ time ∷ [])
          (find_column-swap n time cap_column [] refl))

head-Same : (ts : List Table) → All (λ m. Same m (find_table m.name (head ++ ts))) models
head-Same ts = (
  (limits_last, refl, refl, refl),
  (
    ((λ n. refl), refl, refl, refl),
    (
      ((λ n. refl), refl, refl, refl),
      (
        ((λ n. refl), refl, refl, refl),
        (
          ((λ n. refl), refl, refl, refl),
          (((λ n. refl), refl, refl, refl), (((λ n. refl), refl, refl, refl), tt)),
        ),
      ),
    ),
  ),
)

-- On a database whose other tables have nothing to do with these, all revisions are carried out. The tables are then
-- the others and, for each model, one with its name that has the columns that the model declares, each with the same
-- type, default, key and reference, and the same constraints and indexes.
pub revisions-Same :
    (P : Postgres) (c : P.Catalogue)
    → AreApart (upgrades revisions) (P.tables c)
    → (c' : P.Catalogue) × (run_all P (upgrades revisions) c ≡ some c')
      × (P.tables c' ≡ head ++ P.tables c)
      × All (λ m. Same m (find_table m.name (P.tables c'))) models
revisions-Same P c apart =
    let (allowed, same) = allowed_all-append (upgrades revisions) [] (P.tables c) refl apart in
    let (c', e, t) = run_all_allowed P (upgrades revisions) c allowed in
    (
      c',
      e,
      t ∙ same,
      subst (λ ts. All (λ m. Same m (find_table m.name ts)) models) (sym (t ∙ same))
          (head-Same (P.tables c)),
    )
