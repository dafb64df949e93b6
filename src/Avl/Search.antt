-- ===== src/Avl/Search.antt =====
-- common/avl.c: `avl_search_by_pid` in a search tree.
use dsm_db.Shared.{
  ℕ, zero, suc, ◌+◌, ◌<◌, ◌≡◌, ◌≢◌, ◌⊎◌, inl, inr, refl, ltb, ◌==◌, Option, some, none, Bool-cases,
  arith,
}
use dsm_db.Avl.{AvlNodes, Avl, search_from, avl_search_by_pid}

-- The shape of a tree, with the addresses of its nodes.
pub data Shape : Type 0 where
  tip : Shape
  fork : Shape → ℕ → Shape → Shape

abbrev pub top : Shape → Option ℕ
top tip = none
top (fork l a r) = some a

abbrev pub size : Shape → ℕ
size tip = 0
size (fork l a r) = suc (size l + size r)

abbrev pub Stands : AvlNodes → Option ℕ → Shape → Type 0
Stands h p tip = Unit
Stands h p (fork l a r) =
    ((h a).prev ≡ p)
    × ((h a).left ≡ top l)
    × ((h a).right ≡ top r)
    × Stands h (some a) l
    × Stands h (some a) r

-- The ids of a tree, each of which a test holds of.
abbrev pub AllIds : AvlNodes → (ℕ → Type 0) → Shape → Type 0
AllIds h P tip = Unit
AllIds h P (fork l a r) = P (h a).id × AllIds h P l × AllIds h P r

-- A search tree: smaller ids on the left, larger ones on the right.
abbrev pub IsOrdered : AvlNodes → Shape → Type 0
IsOrdered h tip = Unit
IsOrdered h (fork l a r) =
    AllIds h (λ id. id < (h a).id) l
    × AllIds h (λ id. (h a).id < id) r
    × IsOrdered h l
    × IsOrdered h r

abbrev pub In : ℕ → Shape → Type 0
In a tip = ⊥
In a (fork l b r) = (a ≡ b) ⊎ (In a l ⊎ In a r)

-- What a search answers: a node of the tree with the id, or NULL where no node has it.
abbrev pub Answers : AvlNodes → Shape → ℕ → Option (Option ℕ) → Type 0
Answers h t pid result =
    ((a : ℕ) × (result ≡ some (some a)) × In a t × ((h a).id ≡ pid))
    ⊎ ((result ≡ some none) × AllIds h (λ id. id ≢ pid) t)

weaken :
    (h : AvlNodes) (P Q : ℕ → Type 0) (t : Shape)
    → ((id : ℕ) → P id → Q id)
    → AllIds h P t
    → AllIds h Q t
weaken h P Q tip f all = tt
weaken h P Q (fork l a r) f all = (f _ all.0, weaken h P Q l f all.1, weaken h P Q r f all.2)

search_from_lem :
    (f : ℕ) (h : AvlNodes) (p : Option ℕ) (t : Shape) (pid : ℕ)
    → size t < f
    → Stands h p t
    → IsOrdered h t
    → Answers h t pid (search_from f h (top t) pid)
unfolding search_from
search_from_lem zero h p t pid enough s o = absurd (omega (arith, enough))
search_from_lem (suc f) h p tip pid enough s o = inr (refl, tt)
search_from_lem (suc f) h p (fork l a r) pid enough s o = elim (Bool-cases ((h a).id == pid)) [
  | inl found ↦ inl (a, rw found refl, inl refl, ground (arith, found))
  | inr other ↦ elim (Bool-cases (ltb pid (h a).id)) [
    | inl below ↦ elim (search_from_lem f h (some a) l pid (omega (arith, enough)) s.3 o.2) [
      | inl (b, run, there, id) ↦ inl (b, rw (other, below, s.1) run, inr (inl there), id)
      | inr (run, out) ↦ inr (
        rw (other, below, s.1) run,
        (
          ground (arith, other),
          out,
          weaken h (λ id. (h a).id < id) (λ id. id ≢ pid) r
              (λ id lt e. ground (arith, lt, e, below)) o.1,
        ),
      )
    ]
    | inr above ↦ elim (search_from_lem f h (some a) r pid (omega (arith, enough)) s.4 o.3) [
      | inl (b, run, there, id) ↦ inl (b, rw (other, above, s.2) run, inr (inr there), id)
      | inr (run, out) ↦ inr (
        rw (other, above, s.2) run,
        (
          ground (arith, other),
          weaken h (λ id. id < (h a).id) (λ id. id ≢ pid) l
              (λ id lt e. ground (arith, lt, e, above, other)) o.0,
          out,
        ),
      )
    ]
  ]
]

-- In a search tree the search of an id ends, given fuel for more rounds than the tree has nodes. It gives
-- a node of the tree with that id, or NULL where no node of the tree has it.
pub avl_search_by_pid-Answers :
    (f : ℕ) (tree : Avl) (t : Shape) (pid : ℕ)
    → size t < f
    → tree.root ≡ top t
    → Stands tree.nodes none t
    → IsOrdered tree.nodes t
    → Answers tree.nodes t pid (avl_search_by_pid f tree pid)
unfolding avl_search_by_pid
avl_search_by_pid-Answers f tree t pid enough root s o =
    rw root (search_from_lem f tree.nodes none t pid enough s o)
