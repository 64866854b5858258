-- ===== src/Schema/Undo.antt =====
-- The revisions run, and their downgrades undo them.
use web_hooks.Base.{◌≡◌, refl, ◌∙◌, ap, Bool, true, false, some, List, [], ◌∷◌, ◌++◌, subst, sym}
use package.web_hooks.Schema.{Table, Ddl, Revision}
use package.web_hooks.Schema.Revisions.{revisions}
use package.web_hooks.Schema.Frame.{AreApart, allowed_all-append, both}
use package.web_hooks.Schema.Catalogue.{
  Postgres, allowed, allowed_all, effect, effects, run_all, run_all_allowed, and_left, and_right,
}

abbrev pub upgrades : List Revision → List Ddl
upgrades [] = []
upgrades (r ∷ rs) = r.upgrade ++ upgrades rs

-- The operations of upgrades (true) and downgrades (false) by one revision each, and the revisions that are applied
-- after them, the last first. There is no upgrade past the last revision and no downgrade before the first.
abbrev pub walk : List Bool → (applied pending : List Revision) → List Ddl × List Revision
walk [] applied pending = ([], applied)
walk (true ∷ moves) applied [] = walk moves applied []
walk (true ∷ moves) applied (r ∷ pending) =
    let (ds, last) = walk moves (r ∷ applied) pending in (r.upgrade ++ ds, last)
walk (false ∷ moves) [] pending = walk moves [] pending
walk (false ∷ moves) (r ∷ applied) pending =
    let (ds, last) = walk moves applied (r ∷ pending) in (r.downgrade ++ ds, last)

-- The tables that the applied revisions make, each upgraded once.
abbrev pub tables_of : List Revision → List Table
tables_of [] = []
tables_of (r ∷ applied) = effects r.upgrade (tables_of applied)

-- The revision runs on the tables, and its downgrade gives them back.
abbrev IsUndone : Revision → List Table → Type 0
IsUndone r ts =
    (allowed_all r.upgrade ts ≡ true)
    × (allowed_all r.downgrade (effects r.upgrade ts) ≡ true)
    × (effects r.downgrade (effects r.upgrade ts) ≡ ts)

abbrev AppliedUndone : List Revision → Type 0
AppliedUndone [] = Unit {0}
AppliedUndone (r ∷ applied) = IsUndone r (tables_of applied) × AppliedUndone applied

abbrev PendingUndone : (applied pending : List Revision) → Type 0
PendingUndone applied [] = Unit {0}
PendingUndone applied (r ∷ pending) =
    IsUndone r (tables_of applied) × PendingUndone (r ∷ applied) pending

revisions-PendingUndone : PendingUndone [] revisions
revisions-PendingUndone =
    ((refl, refl, refl), ((refl, refl, refl), ((refl, refl, refl), ((refl, refl, refl), tt))))

effects-append :
    (ds es : List Ddl) (ts : List Table) → effects (ds ++ es) ts ≡ effects es (effects ds ts)
effects-append [] es ts = refl
effects-append (d ∷ ds) es ts = effects-append ds es (effect d ts)

allowed_all-then :
    (ds es : List Ddl) (ts : List Table)
    → allowed_all ds ts ≡ true
    → allowed_all es (effects ds ts) ≡ true
    → allowed_all (ds ++ es) ts ≡ true
allowed_all-then [] es ts h k = k
allowed_all-then (d ∷ ds) es ts h k =
    both _ _ (and_left _ _ h)
      (allowed_all-then ds es (effect d ts) (and_right (allowed d ts) _ h) k)

-- The operations run on the tables and lead to others.
abbrev Leads : List Ddl → List Table → List Table → Type 0
Leads ds ts us = (allowed_all ds ts ≡ true) × (effects ds ts ≡ us)

Leads-append :
    (ds es : List Ddl) (ts us vs : List Table)
    → Leads ds ts us
    → Leads es us vs
    → Leads (ds ++ es) ts vs
Leads-append ds es ts us vs (a, e) (b, f) = (
  allowed_all-then ds es ts a (subst (λ x. allowed_all es x ≡ true) (sym e) b),
  effects-append ds es ts ∙ ap (effects es) e ∙ f,
)

walk-Leads :
    (moves : List Bool) (applied pending : List Revision)
    → AppliedUndone applied
    → PendingUndone applied pending
    → Leads
        (walk moves applied pending).0
        (tables_of applied)
        (tables_of (walk moves applied pending).1)
walk-Leads [] applied pending h k = (refl, refl)
walk-Leads (true ∷ moves) applied [] h k = walk-Leads moves applied [] h k
walk-Leads (true ∷ moves) applied (r ∷ pending) h k =
    Leads-append r.upgrade _ _ (tables_of (r ∷ applied)) _ ((k.0.0, refl))
      (walk-Leads moves (r ∷ applied) pending (k.0, h) k.1)
walk-Leads (false ∷ moves) [] pending h k = walk-Leads moves [] pending h k
walk-Leads (false ∷ moves) (r ∷ applied) pending h k =
    Leads-append r.downgrade _ _ (tables_of applied) _ ((h.0.1, h.0.2))
      (walk-Leads moves applied (r ∷ pending) h.1 (h.0, k))

-- On a database whose other tables have nothing to do with these, every sequence of upgrades and downgrades by one
-- revision each is carried out. The tables are then the others and those that the revisions applied in the end make when
-- each is upgraded once: whatever was upgraded and downgraded in between leaves nothing behind.
pub revisions_walked :
    (P : Postgres) (moves : List Bool) (c : P.Catalogue)
    → AreApart (walk moves [] revisions).0 (P.tables c)
    → (c' : P.Catalogue) × (run_all P (walk moves [] revisions).0 c ≡ some c')
      × (P.tables c' ≡ tables_of (walk moves [] revisions).1 ++ P.tables c)
revisions_walked P moves c apart =
    let ds = (walk moves [] revisions).0 in
    let (runs, made) = walk-Leads moves [] revisions tt revisions-PendingUndone in
    let (allowed, same) = allowed_all-append ds [] (P.tables c) runs apart in
    let (c', e, t) = run_all_allowed P ds c allowed in
    (c', e, t ∙ same ∙ ap (λ us. us ++ P.tables c) made)
