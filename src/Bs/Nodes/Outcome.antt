-- ===== src/Bs/Nodes/Outcome.antt =====
-- The blocks after the job.
use vpn_panel.Prelude.{
  ℕ, ◌≡◌, refl, ◌∙◌, true, ◌&&◌, ◌||◌, not, List, [], ◌∷◌, map, filter, any-append, contains, ◌==◌,
  is_some, arith, Bool-cases, inl, inr,
}
use vpn_panel.Bs.{diff_blocks, same, member, minus}
use vpn_panel.Bs.Pool.{BsDb, find_user}
use vpn_panel.Bs.Nodes.{
  Blocks, desired_blocks, over_users, block_one, block_all, unblock_all, reconciled, review_over,
  review_bs_nodes,
}
use vpn_panel.Bs.Nodes.Over.{is_exhausted, contains-over_users}

member-filter-same :
    (n u : ℕ) (p : ℕ × ℕ) (rows : List (ℕ × ℕ))
    → member (n, u) (filter (λ q. not (same q p)) rows)
      ≡ (member (n, u) rows && not (same (n, u) p))
member-filter-same n u p [] = refl
member-filter-same n u p (q ∷ rows) = ground (arith, member-filter-same n u p rows)

same-member :
    (n u a b : ℕ) (ys : List (ℕ × ℕ))
    → same (n, u) (a, b) ≡ true
    → member (a, b) ys ≡ member (n, u) ys
same-member n u a b [] h = refl
same-member n u a b (y ∷ ys) h = ground (arith, same-member n u a b ys)

member-minus :
    (n u : ℕ) (xs ys : List (ℕ × ℕ))
    → member (n, u) (minus xs ys) ≡ (member (n, u) xs && not (member (n, u) ys))
member-minus n u [] ys = refl
member-minus n u ((a, b) ∷ xs) ys = elim (Bool-cases (member (a, b) ys)) [
  | inl there ↦ rw there (ground (arith, member-minus n u xs ys, same-member n u a b ys))
  | inr absent ↦ rw absent (ground (arith, member-minus n u xs ys, same-member n u a b ys))
]

member-nodes :
    (n u v : ℕ) (ns : List ℕ) → member (n, u) (map (λ k. (k, v)) ns) ≡ (contains n ns && u == v)
member-nodes n u v [] = refl
member-nodes n u v (k ∷ ns) = ground (arith, member-nodes n u v ns)

member-desired :
    (n u : ℕ) (ns us : List ℕ)
    → member (n, u) (desired_blocks ns us) ≡ (contains n ns && contains u us)
unfolding desired_blocks
member-desired n u ns [] = ground arith
member-desired n u ns (v ∷ us) = ground (
  arith,
  any-append (same (n, u)) (map (λ k. (k, v)) ns) (desired_blocks ns us),
  member-nodes n u v ns,
  member-desired n u ns us,
)

member-block_one :
    (db : BsDb) (n u : ℕ) (p : ℕ × ℕ) (b : Blocks)
    → member (n, u) (block_one db p b).rows
      ≡ (member (n, u) b.rows || (same (n, u) p && is_some (find_user u db.users)))
member-block_one db n u (k, v) b = ground (arith, any-append (same (n, u)) b.rows ((k, v) ∷ []))

member-block_all :
    (db : BsDb) (n u : ℕ) (ps : List (ℕ × ℕ)) (b : Blocks)
    → member (n, u) (block_all db ps b).rows
      ≡ (member (n, u) b.rows || (member (n, u) ps && is_some (find_user u db.users)))
unfolding block_all
member-block_all db n u [] b = ground arith
member-block_all db n u (p ∷ ps) b =
    ground (arith, member-block_all db n u ps (block_one db p b), member-block_one db n u p b)

member-unblock_all :
    (db : BsDb) (n u : ℕ) (ps : List (ℕ × ℕ)) (b : Blocks)
    → member (n, u) (unblock_all db ps b).rows ≡ (member (n, u) b.rows && not (member (n, u) ps))
unfolding unblock_all
member-unblock_all db n u [] b = ground arith
member-unblock_all db n u (p ∷ ps) b =
    member-unblock_all db n u ps _ ∙ ground (arith, member-filter-same n u p b.rows)

reconciled_lem :
    (db : BsDb) (m n u : ℕ) (b : Blocks)
    → member (n, u) (reconciled db m b).rows ≡ (
        contains n db.bs_nodes
        && is_exhausted db u m
        && (member (n, u) b.rows || is_some (find_user u db.users)))
unfolding reconciled diff_blocks
reconciled_lem db m n u b =
    let desired = desired_blocks db.bs_nodes (over_users db m) in
    ground (
      arith,
      member-unblock_all db n u (minus b.rows desired) (block_all db (minus desired b.rows) b),
      member-block_all db n u (minus desired b.rows) b,
      member-minus n u desired b.rows,
      member-minus n u b.rows desired,
      member-desired n u db.bs_nodes (over_users db m),
      contains-over_users db u m,
    )

-- Where there is a BS node, after the job a user is blocked on a node exactly when it is a BS node,
-- the BS state of the user says that the month's total is used up, and the user exists (or was
-- blocked there already).
pub review_bs_nodes_lem :
    (db : BsDb) (m n u node : ℕ) (b : Blocks)
    → contains node db.bs_nodes ≡ true
    → member (n, u) (review_bs_nodes db m b).rows ≡ (
        contains n db.bs_nodes
        && is_exhausted db u m
        && (member (n, u) b.rows || is_some (find_user u db.users)))
unfolding review_bs_nodes
review_bs_nodes_lem db m n u node b h = review_over_lem db.bs_nodes refl
  where
    review_over_lem :
        (ns : List ℕ)
        → db.bs_nodes ≡ ns
        → member (n, u) (review_over db m ns b).rows ≡ (
            contains n db.bs_nodes
            && is_exhausted db u m
            && (member (n, u) b.rows || is_some (find_user u db.users)))
    review_over_lem [] e = cc
    review_over_lem (k ∷ ns) e = reconciled_lem db m n u b

-- Without a BS node the job lifts no block: who was blocked on a node that is no longer a BS node
-- stays blocked there.
pub review_bs_nodes-stale :
    (db : BsDb) (m : ℕ) (b : Blocks) → db.bs_nodes ≡ [] → review_bs_nodes db m b ≡ b
unfolding review_bs_nodes
review_bs_nodes-stale db m b h = rw (h, review_over) refl
