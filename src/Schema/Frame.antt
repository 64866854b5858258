-- ===== src/Schema/Frame.antt =====
-- Operations on some tables leave the other tables of the database alone.
use text.Mathlib.Text.{◌==◌}
use Prim.Native.String.{String}
use web_hooks.Base.{
  ◌≡◌, refl, ap, ◌∙◌, Bool, true, false, not, ◌&&◌, Option, none, some, List, [], ◌∷◌, ◌++◌,
  if◌then◌else◌, arith, Bool-cases, inl, inr,
}
use package.web_hooks.Schema.{
  Column, Reference, Columns, Table, Ddl, create_table, drop_table, add_column, drop_column,
  create_index,
}
use package.web_hooks.Schema.Catalogue.{
  no_table, no_index, is_free, all_free, unreferenced, in_table, resolves, all_resolve,
  no_reference_in, allowed, allowed_all, change, without_table, effect, effects, and_left,
  and_right,
}

-- The tables have no name that an operation makes, and do not refer to a table that it drops.
abbrev pub IsApart : Ddl → List Table → Type 0
IsApart (create_table t) ts = (is_free t.name ts ≡ true) × (all_free t.uniques ts ≡ true)
IsApart (drop_table n) ts = unreferenced n ts ≡ true
IsApart (add_column n c) ts = Unit {0}
IsApart (drop_column n c) ts = Unit {0}
IsApart (create_index n i) ts = is_free i.name ts ≡ true

abbrev pub AreApart : List Ddl → List Table → Type 0
AreApart [] ts = Unit {0}
AreApart (d ∷ ds) ts = IsApart d ts × AreApart ds ts

pub both : (a b : Bool) → a ≡ true → b ≡ true → (a && b) ≡ true
both true b h k = k
both false b h k = h

no_table-append :
    (n : String) (us ts : List Table)
    → no_table n us ≡ true
    → no_table n ts ≡ true
    → no_table n (us ++ ts) ≡ true
no_table-append n [] ts h k = k
no_table-append n (u ∷ us) ts h k =
    both _ _ (and_left _ _ h) (no_table-append n us ts (and_right (not (u.name == n)) _ h) k)

no_index-append :
    (n : String) (us ts : List Table)
    → no_index n us ≡ true
    → no_index n ts ≡ true
    → no_index n (us ++ ts) ≡ true
no_index-append n [] ts h k = k
no_index-append n (u ∷ us) ts h k = ground (arith, h, no_index-append n us ts)

is_free-append :
    (n : String) (us ts : List Table)
    → is_free n us ≡ true
    → is_free n ts ≡ true
    → is_free n (us ++ ts) ≡ true
is_free-append n us ts h k =
    both _ _ (no_table-append n us ts (and_left _ _ h) (and_left _ _ k))
      (no_index-append n us ts (and_right (no_table n us) _ h) (and_right (no_table n ts) _ k))

all_free-append :
    (is : List Columns) (us ts : List Table)
    → all_free is us ≡ true
    → all_free is ts ≡ true
    → all_free is (us ++ ts) ≡ true
all_free-append [] us ts h k = refl
all_free-append (i ∷ is) us ts h k =
    both _ _ (is_free-append i.name us ts (and_left _ _ h) (and_left _ _ k)) (
      all_free-append is us ts (and_right (is_free i.name us) _ h)
        (and_right (is_free i.name ts) _ k))

in_table-append :
    (p : Table → Bool) (n : String) (us ts : List Table)
    → in_table p n us ≡ true
    → in_table p n (us ++ ts) ≡ true
in_table-append p n [] ts h = absurd (cc)
in_table-append p n (u ∷ us) ts h = elim (Bool-cases (u.name == n)) [
  | inl e ↦ rw e (ground (arith, e, h))
  | inr e ↦ rw e (in_table-append p n us ts (ground (arith, e, h)))
]

unreferenced-append :
    (n : String) (us ts : List Table)
    → unreferenced n us ≡ true
    → unreferenced n ts ≡ true
    → unreferenced n (us ++ ts) ≡ true
unreferenced-append n [] ts h k = k
unreferenced-append n (u ∷ us) ts h k = both _ _ (and_left _ _ h) (
    unreferenced-append n us ts
      (and_right (if u.name == n then true else no_reference_in n u.columns) _ h) k)

resolves-append :
    (us ts : List Table) (r : Option Reference)
    → resolves us r ≡ true
    → resolves (us ++ ts) r ≡ true
resolves-append us ts none h = refl
resolves-append us ts (some r) h = in_table-append _ r.table us ts h

all_resolve-append :
    (us ts : List Table) (cs : List Column)
    → all_resolve us cs ≡ true
    → all_resolve (us ++ ts) cs ≡ true
all_resolve-append us ts [] h = refl
all_resolve-append us ts (c ∷ cs) h =
    both _ _ (resolves-append us ts c.references (and_left _ _ h))
      (all_resolve-append us ts cs (and_right (resolves us c.references) _ h))

allowed-append :
    (d : Ddl) (us ts : List Table)
    → allowed d us ≡ true
    → IsApart d ts
    → allowed d (us ++ ts) ≡ true
allowed-append (create_table t) us ts h k =
    let names = and_left _ (all_resolve us t.columns) h in
    both _ _
      (both _ _ (is_free-append t.name us ts (and_left _ _ names) k.0)
        (all_free-append t.uniques us ts (and_right (is_free t.name us) _ names) k.1))
      (all_resolve-append us ts t.columns
        (and_right (is_free t.name us && all_free t.uniques us) _ h))
allowed-append (drop_table n) us ts h k =
    both _ _ (in_table-append _ n us ts (and_left _ _ h))
      (unreferenced-append n us ts (and_right (in_table (λ t. true) n us) _ h) k)
allowed-append (add_column n c) us ts h k = in_table-append _ n us ts h
allowed-append (drop_column n c) us ts h k = in_table-append _ n us ts h
allowed-append (create_index n i) us ts h k =
    both _ _ (is_free-append i.name us ts (and_left _ _ h) k)
      (in_table-append _ n us ts (and_right (is_free i.name us) _ h))

change-append :
    (f : Table → Table) (p : Table → Bool) (n : String) (us ts : List Table)
    → in_table p n us ≡ true
    → change f n (us ++ ts) ≡ change f n us ++ ts
change-append f p n [] ts h = absurd (cc)
change-append f p n (u ∷ us) ts h = elim (Bool-cases (u.name == n)) [
  | inl e ↦ rw e refl
  | inr e ↦ rw e (ap (λ vs. u ∷ vs) (change-append f p n us ts (ground (arith, e, h))))
]

without_table-append :
    (n : String) (us ts : List Table)
    → in_table (λ t. true) n us ≡ true
    → without_table n (us ++ ts) ≡ without_table n us ++ ts
without_table-append n [] ts h = absurd (cc)
without_table-append n (u ∷ us) ts h = elim (Bool-cases (u.name == n)) [
  | inl e ↦ rw e refl
  | inr e ↦ rw e (ap (λ vs. u ∷ vs) (without_table-append n us ts (ground (arith, e, h))))
]

effect-append :
    (d : Ddl) (us ts : List Table) → allowed d us ≡ true → effect d (us ++ ts) ≡ effect d us ++ ts
effect-append (create_table t) us ts h = refl
effect-append (drop_table n) us ts h = without_table-append n us ts (and_left _ _ h)
effect-append (add_column n c) us ts h = change-append _ _ n us ts h
effect-append (drop_column n c) us ts h = change-append _ _ n us ts h
effect-append (create_index n i) us ts h =
    change-append _ _ n us ts (and_right (is_free i.name us) _ h)

-- What is carried out on some tables alone is carried out beside others, and leaves those as they are.
pub allowed_all-append :
    (ds : List Ddl) (us ts : List Table)
    → allowed_all ds us ≡ true
    → AreApart ds ts
    → (allowed_all ds (us ++ ts) ≡ true) × (effects ds (us ++ ts) ≡ effects ds us ++ ts)
allowed_all-append [] us ts h k = (refl, refl)
allowed_all-append (d ∷ ds) us ts h k =
    let now = and_left (allowed d us) _ h in
    let (later, same) = allowed_all-append ds (effect d us) ts (and_right (allowed d us) _ h) k.1 in
    let e = effect-append d us ts now in
    (both _ _ (allowed-append d us ts now k.0) (rw e later), ap (effects ds) e ∙ same)
