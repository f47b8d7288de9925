-- ===== src/Store/Cave/Scope.antt =====
-- A tenant's task list shows its own tasks only (crates/store/src/lib.rs).
use mathlib.Core.Path.{subst}
use coven_github.Store.Cave.{
  is_work, newer, cave_rows, project_status, cave_list, cave_items, cave_item,
}
use coven_github.GitHub.{TaskListItem, TaskKind}
use coven_github.Store.Memory.{in_installation, in_repos, ApiScope}
use coven_github.Base.{
  All, All-select_where, All-sort_by, All_mem, Bool-cases, List, Memᴰ, Option, String, [],
  and-eq-true, eq_of_==, inl, inr, nat_Eq, none, refl, select_where, some, text_Eq, true, ◌&&◌, ◌∷◌,
  ◌≡◌,
}
use coven_github.Store.Schema.{Db, KindJson, Result, TaskRow, err, ok, unreadable_kind}

-- The item describes a row of the table, which is of the scope's installation and of one of its
-- repositories.
pub record Described (table : List TaskRow) (s : ApiScope) (item : TaskListItem) : Type 0 where
  pub row : TaskRow
  pub stored : Memᴰ row table
  pub id : item.id ≡ row.id
  pub repo : item.repo ≡ row.repo
  pub status : item.status ≡ project_status row.state row.result_status row.pr_number
  pub installation : row.installation_id ≡ s.installation_id
  pub allowed : in_repos s.repos row.repo ≡ true

pub ok-injective : {A : Type 0} {x y : A} → ok x ≡ ok y → x ≡ y
ok-injective e = cc

module _ (json : KindJson) (names : List (String × String)) (s : ApiScope)
    (table : List TaskRow) where
  abbrev Mine : TaskRow → Type 0
  Mine r = Memᴰ r table × (r.installation_id ≡ s.installation_id)

  Described-cave_item :
      (r : TaskRow) (kind : TaskKind)
      → Mine r
      → in_repos s.repos r.repo ≡ true
      → Described table s (cave_item names r kind)
  unfolding cave_item
  Described-cave_item r kind m e = record {
    row = r;
    stored = m.0;
    id = refl;
    repo = refl;
    status = refl;
    installation = m.1;
    allowed = e;
  }

  abbrev item_then :
      Result (List TaskListItem) → TaskRow → Option TaskKind → Result (List TaskListItem)
  item_then rest r k = elim k [
    | none ↦ err unreadable_kind
    | some kind ↦ elim rest [ err e ↦ err e | ok items ↦ ok (cave_item names r kind ∷ items) ]
  ]

  Described-item_then :
      (r : TaskRow) (k : Option TaskKind) (rest : Result (List TaskListItem))
      (items : List TaskListItem)
      → Mine r
      → in_repos s.repos r.repo ≡ true
      → ((more : List TaskListItem) → rest ≡ ok more → All (Described table s) more)
      → item_then rest r k ≡ ok items
      → All (Described table s) items
  Described-item_then r none rest items m v h e = cc
  Described-item_then r (some kind) (err x) items m v h e = cc
  Described-item_then r (some kind) (ok more) items m v h e =
      subst (All (Described table s)) (ok-injective e) (Described-cave_item r kind m v, h more refl)

  Described-cave_items :
      (rows : List TaskRow) (items : List TaskListItem)
      → All Mine rows
      → cave_items json names (some s) rows ≡ ok items
      → All (Described table s) items
  unfolding cave_items
  Described-cave_items [] items h e = subst (All (Described table s)) (ok-injective e) tt
  Described-cave_items (r ∷ rows) items h e = elim (Bool-cases (in_repos s.repos r.repo)) [
    | inl q ↦
        Described-item_then r (json.from_str r.kind) (cave_items json names (some s) rows) items h.0
          q (λ more k. Described-cave_items rows more h.1 k) (rw q at e)
    | inr q ↦ Described-cave_items rows items h.1 (rw q at e)
  ]

-- Every item that the list returns to a tenant describes a stored task of its installation and of
-- a repository that its scope allows.
pub cave_list-scoped :
    (json : KindJson) (db : Db) (names : List (String × String)) (s : ApiScope)
    (items : List TaskListItem)
    → cave_list json db names (some s) ≡ ok items
    → All (Described db.tasks s) items
unfolding cave_list cave_rows
cave_list-scoped json db names s items e =
    Described-cave_items json names s db.tasks (cave_rows json db (some s)) items
      (All-sort_by _ newer
        (select_where
          (λ (r : TaskRow).
            is_work (json.kind_tag r.kind) && in_installation (some s) r.installation_id)
          db.tasks)
        (All-select_where {P = λ r. Memᴰ r db.tasks}
          (λ (r : TaskRow).
            is_work (json.kind_tag r.kind) && in_installation (some s) r.installation_id)
          db.tasks (λ r m q. (m, eq_of_== _ _ (and-eq-true _ _ q).1)) (All_mem db.tasks)))
      e
