-- ===== src/Schema/Catalogue.antt =====
-- What Postgres is relied on for: which operations it carries out on the tables that there are, and what the
-- tables are then. A revision runs on any implementation of this.
use text.Mathlib.Text.{◌==◌}
use Prim.Native.String.{String}
use web_hooks.Base.{
  ◌≡◌, refl, ap, ◌∙◌, Bool, true, false, not, ◌&&◌, Option, none, some, List, [], ◌∷◌, ◌++◌,
  if◌then◌else◌,
}
use package.web_hooks.Schema.{
  Column, Reference, Columns, Table, Ddl, create_table, drop_table, add_column, drop_column,
  create_index,
}

abbrev pub no_table : String → List Table → Bool
no_table n [] = true
no_table n (t ∷ ts) = not (t.name == n) && no_table n ts

abbrev pub no_index_in : String → List Columns → Bool
no_index_in n [] = true
no_index_in n (i ∷ is) = not (i.name == n) && no_index_in n is

abbrev pub no_index : String → List Table → Bool
no_index n [] = true
no_index n (t ∷ ts) = no_index_in n t.indexes && no_index_in n t.uniques && no_index n ts

abbrev pub refers_to : String → Option Reference → Bool
refers_to n none = false
refers_to n (some r) = r.table == n

abbrev pub no_reference_in : String → List Column → Bool
no_reference_in n [] = true
no_reference_in n (c ∷ cs) = not (refers_to n c.references) && no_reference_in n cs

-- No other table refers to the table.
abbrev pub unreferenced : String → List Table → Bool
unreferenced n [] = true
unreferenced n (t ∷ ts) =
    (if t.name == n then true else no_reference_in n t.columns) && unreferenced n ts

abbrev pub no_column : String → List Column → Bool
no_column n [] = true
no_column n (c ∷ cs) = not (c.name == n) && no_column n cs

-- A test of the table with the name, which fails if there is none.
abbrev pub in_table : (Table → Bool) → String → List Table → Bool
in_table p n [] = false
in_table p n (t ∷ ts) = let rest = in_table p n ts in if t.name == n then p t else rest

abbrev pub resolves : List Table → Option Reference → Bool
resolves ts none = true
resolves ts (some r) = in_table (λ t. not (no_column r.column t.columns)) r.table ts

abbrev pub all_resolve : List Table → List Column → Bool
all_resolve ts [] = true
all_resolve ts (c ∷ cs) = resolves ts c.references && all_resolve ts cs

abbrev pub have_columns : List String → List Column → Bool
have_columns [] cs = true
have_columns (n ∷ ns) cs = not (no_column n cs) && have_columns ns cs

-- Tables and indexes share their names.
abbrev pub is_free : String → List Table → Bool
is_free n ts = no_table n ts && no_index n ts

abbrev pub all_free : List Columns → List Table → Bool
all_free [] ts = true
all_free (i ∷ is) ts = is_free i.name ts && all_free is ts

-- Whether an operation is carried out.
abbrev pub allowed : Ddl → List Table → Bool
allowed (create_table t) ts = is_free t.name ts && all_free t.uniques ts && all_resolve ts t.columns
allowed (drop_table n) ts = in_table (λ t. true) n ts && unreferenced n ts
allowed (add_column n c) ts = in_table (λ t. no_column c.name t.columns) n ts
allowed (drop_column n c) ts = in_table (λ t. not (no_column c t.columns)) n ts
allowed (create_index n i) ts =
    is_free i.name ts && in_table (λ t. have_columns i.columns t.columns) n ts

abbrev pub change : (Table → Table) → String → List Table → List Table
change f n [] = []
change f n (t ∷ ts) = let rest = change f n ts in if t.name == n then f t ∷ ts else t ∷ rest

abbrev pub without_table : String → List Table → List Table
without_table n [] = []
without_table n (t ∷ ts) = let rest = without_table n ts in if t.name == n then ts else t ∷ rest

abbrev pub without_column : String → List Column → List Column
without_column n [] = []
without_column n (c ∷ cs) = let rest = without_column n cs in if c.name == n then cs else c ∷ rest

-- The tables after it. The order of tables means nothing.
abbrev pub effect : Ddl → List Table → List Table
effect (create_table t) ts = t ∷ ts
effect (drop_table n) ts = without_table n ts
effect (add_column n c) ts = change (λ t. record t { columns = t.columns ++ c ∷ [] }) n ts
effect (drop_column n c) ts = change (λ t. record t { columns = without_column c t.columns }) n ts
effect (create_index n i) ts = change (λ t. record t { indexes = t.indexes ++ i ∷ [] }) n ts

pub record Postgres : Type 1 where
  pub Catalogue : Type 0
  pub tables : Catalogue → List Table
  pub run : Ddl → Catalogue → Option Catalogue
  pub run_allowed :
      (d : Ddl) (c : Catalogue)
      → allowed d (tables c) ≡ true
      → (c' : Catalogue) × (run d c ≡ some c') × (tables c' ≡ effect d (tables c))

abbrev pub allowed_all : List Ddl → List Table → Bool
allowed_all [] ts = true
allowed_all (d ∷ ds) ts = allowed d ts && allowed_all ds (effect d ts)

abbrev pub effects : List Ddl → List Table → List Table
effects [] ts = ts
effects (d ∷ ds) ts = effects ds (effect d ts)

pub and_left : (a b : Bool) → (a && b) ≡ true → a ≡ true
and_left true b h = refl
and_left false b h = h

pub and_right : (a b : Bool) → (a && b) ≡ true → b ≡ true
and_right true b h = h
and_right false b h = absurd (cc)

module _ (P : Postgres) where
  open P use {Catalogue, tables, run, run_allowed}

  -- The operations in one transaction: if one fails there is no new catalogue.
  unfoldable pub run_all : List Ddl → Catalogue → Option Catalogue
  run_all [] c = some c
  run_all (d ∷ ds) c = elim (run d c) [ none ↦ none | some c' ↦ run_all ds c' ]

  pub run_all_allowed :
      (ds : List Ddl) (c : Catalogue)
      → allowed_all ds (tables c) ≡ true
      → (c' : Catalogue) × (run_all ds c ≡ some c') × (tables c' ≡ effects ds (tables c))
  unfolding run_all
  run_all_allowed [] c h = (c, refl, refl)
  run_all_allowed (d ∷ ds) c h =
      let (c', e, t) = run_allowed d c (and_left _ _ h) in
      let (last, e', t') = run_all_allowed ds c' (rw t (and_right (allowed d (tables c)) _ h)) in
      (last, rw (e, run_all) e', t' ∙ ap (effects ds) t)
