-- ===== src/Store/Workflows/Total.antt =====
-- When the loops of `InstantiateWorkflow` succeed.
use paihuo.Prelude.{
  ℕ, suc, ◌≡◌, ◌≢◌, refl, sym, ◌∙◌, ap, subst, String, Bool, true, false, none, some, List, [], ◌∷◌,
  ◌++◌, arith, ◌==◌, All, In, inl, inr, any, elem, Bool-cases,
}
use paihuo.Model.{Task, Role}
use paihuo.Store.Db.{Db, Edge, Result, ok, ◌>>=◌}
use paihuo.Store.Db.Rows.{exists_row, find}
use paihuo.Store.Insert.{insert_row, appended, references_ok, clashes}
use paihuo.Store.Insert.Laws.{IsKeyed}
use paihuo.Store.Create.{
  prepare_task_for_insert, assign_next_task_sort_order, insert_task, normalize_dependency_mode,
}
use paihuo.Workflow.Spec.{Node}
use paihuo.Store.Workflows.{
  Texts, Launch, TaskIds, task_id_of, or_zero, edge_of, same_edge, node_task, insert_nodes,
  insert_dependency, link_node, link_nodes,
}
use paihuo.Store.Workflows.Planted.{node_insert, node_insert_lem}
use paihuo.Store.Workflows.Linked.{
  node_edges, planned, with_edges, with_edges-append, with_edges-nil,
}
use paihuo.Store.Workflows.Apart.{Apart, Apart-append}

abbrev pub HasRow : Db → ℕ → Type 0
HasRow db i = exists_row (λ t. t.id == i) db.tasks ≡ true

pub find-HasRow :
    (i : ℕ) (ts : List Task) {t : Task} → find i ts ≡ some t → exists_row (λ u. u.id == i) ts ≡ true
unfolding find exists_row
find-HasRow i [] h = cc
find-HasRow i (u ∷ ts) {t = t} h = elim (Bool-cases (u.id == i)) [
  | inl e ↦ rw e refl
  | inr e ↦ rw e (find-HasRow i ts {t = t} (ground arith))
]

exists_row-never :
    (p : Task → Bool) (ts : List Task) → ((t : Task) → p t ≡ false) → exists_row p ts ≡ false
unfolding exists_row
exists_row-never p [] h = refl
exists_row-never p (t ∷ ts) h = ground (arith, h t, exists_row-never p ts h)

-- The row of a role.
abbrev pub HasRole : List Role → ℕ → Type 0
HasRole roles i = any (λ r. r.id == i) roles ≡ true

module _ (x : Texts) (now : ℕ) (l : Launch) where
  -- The row that the INSERT is given.
  abbrev node_row : Node → Db → Task
  node_row n db =
      record (assign_next_task_sort_order db (prepare_task_for_insert now (node_task x l n))) {
        error = "";
        tmux_log_offset = 0;
        started_at = none;
      }

  node_insert-total :
      (n : Node) (db : Db)
      → HasRole db.roles n.role.role_id
      → elem l.project db.projects ≡ true
      → elem l.run db.runs ≡ true
      → (db' : Db) × (i : ℕ) × (node_insert x now l n db ≡ ok (db', i))
  unfolding insert_task prepare_task_for_insert assign_next_task_sort_order node_task
      normalize_dependency_mode insert_row references_ok clashes
  node_insert-total n db role project run =
      let none_clash = exists_row-never (clashes (node_row n db)) db.tasks (λ t. refl) in
      (appended db (node_row n db), suc db.last_id, ground arith)

  pub insert_nodes-total :
      (ns : List Node) (before : TaskIds) (db : Db)
      → IsKeyed db
      → All (λ n. HasRole db.roles n.role.role_id) ns
      → elem l.project db.projects ≡ true
      → elem l.run db.runs ≡ true
      → (db' : Db) × (after : TaskIds) × (insert_nodes x now l ns before db ≡ ok (db', after))
  unfolding insert_nodes
  insert_nodes-total [] before db k roles project run = (db, before, refl)
  insert_nodes-total (n ∷ ns) before db k roles project run =
      let (db₁, i, first) = node_insert-total n db roles.0 project run in
      let (g, s, last) = node_insert_lem x now l n db db₁ i k first in
      let (db', after, rest) =
        insert_nodes-total ns ((n.id, i) ∷ before) db₁ g.keyed
          (subst (λ (rs : List Role). All (λ a. HasRole rs a.role.role_id) ns) (sym g.roles)
            roles.1)
          (subst (λ (ps : List ℕ). elem l.project ps ≡ true) (sym g.projects) project)
          (subst (λ (rs : List ℕ). elem l.run rs ≡ true) (sym g.runs) run) in
      (db', after, rw first rest)

-- An edge that the keys of the table let in.
abbrev pub Fits : Db → Edge → Type 0
Fits db e = HasRow db e.task_id × HasRow db e.depends_on × (e.task_id ≢ e.depends_on)

insert_dependency-total :
    (e : Edge) (db : Db)
    → Fits db e
    → any (same_edge e) db.edges ≡ false
    → insert_dependency e db ≡ ok (with_edges db (e ∷ []))
unfolding insert_dependency
insert_dependency-total e db (a, b, c) h = ground arith

module _ (m : TaskIds) where
  linked :
      (n : Node) (d : String) (ds : List String) (db : Db) (i : ℕ)
      → task_id_of d m ≡ some i
      → link_node m n (d ∷ ds) db ≡ (
          insert_dependency (edge_of m n (or_zero (task_id_of d m))) db >>= λ db'.
          link_node m n ds db')
  unfolding link_node
  linked n d ds db i e = rw (e, link_node)

  All-split : (P : Edge → Type 0) (us vs : List Edge) → All P (us ++ vs) → All P us × All P vs
  All-split P [] vs h = (tt, h)
  All-split P (u ∷ us) vs h = let (a, b) = All-split P us vs h.1 in ((h.0, a), b)

  link_node-total :
      (n : Node) (ds : List String) (db : Db)
      → ((d : String) → In d ds → (i : ℕ) × (task_id_of d m ≡ some i))
      → All (Fits db) (node_edges m n ds)
      → Apart db.edges (node_edges m n ds)
      → link_node m n ds db ≡ ok (with_edges db (node_edges m n ds))
  unfolding link_node
  link_node-total n [] db known fits apart = ap ok (with_edges-nil db)
  link_node-total n (d ∷ ds) db known fits apart =
      let (i, e) = known d (inl refl) in
      let rest =
        link_node-total n ds (with_edges db (edge_of m n (or_zero (task_id_of d m)) ∷ []))
          (λ f k. known f (inr k)) fits.1 apart.1 in
      let one =
        insert_dependency-total (edge_of m n (or_zero (task_id_of d m))) db fits.0 apart.0 in
      linked n d ds db i e
      ∙ (ap (λ (r : Result Db). r >>= λ db'. link_node m n ds db') one
          ∙ (rest
              ∙ ap ok (
                  with_edges-append db (edge_of m n (or_zero (task_id_of d m)) ∷ [])
                    (node_edges m n ds))))

  pub link_nodes-total :
      (ns : List Node) (db : Db)
      → ((n : Node) (d : String)
          → In n ns
          → In d n.depends_on
          → (i : ℕ) × (task_id_of d m ≡ some i))
      → All (Fits db) (planned m ns)
      → Apart db.edges (planned m ns)
      → link_nodes m ns db ≡ ok (with_edges db (planned m ns))
  unfolding link_nodes
  link_nodes-total [] db known fits apart = ap ok (with_edges-nil db)
  link_nodes-total (n ∷ ns) db known fits apart =
      let es = node_edges m n n.depends_on in
      let (f, g) = All-split (Fits db) es (planned m ns) fits in
      let (a, b) = Apart-append db.edges es (planned m ns) apart in
      let one = link_node-total n n.depends_on db (λ d k. known n d (inl refl) k) f a in
      let rest = link_nodes-total ns (with_edges db es) (λ c d k j. known c d (inr k) j) g b in
      ap (λ (r : Result Db). r >>= λ db'. link_nodes m ns db') one
      ∙ (rest ∙ ap ok (with_edges-append db es (planned m ns)))
