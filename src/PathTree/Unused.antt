-- ===== src/PathTree/Unused.antt =====
-- `find_all_unaccessed` against a traversal by recursion.
use micropb.Prelude.{ℕ, suc, ◌+◌, ◌≡◌, refl, sym, ap, arith}
use micropb.Prelude.{List, [], ◌∷◌, ◌++◌, append_assoc, Option, none, some}
use micropb.PathTree.{Node, Children, node, end, child, DfsElem, edge, node_end}
use micropb.PathTree.{push_children, report_loop, before, own_report}

before-before :
    {A : Type 0} (xs ys : List A) (r : Option (List A))
    → before xs (before ys r) ≡ before (xs ++ ys) r
before-before xs ys none = refl
before-before xs ys (some r) = ap some (sym (append_assoc xs ys r))

before-nil : {A : Type 0} (r : Option (List A)) → r ≡ before [] r
before-nil none = refl
before-nil (some r) = refl

-- The nodes in the order of the traversal: each before its children, and these from the last to the
-- first.
unfoldable mutual
  pub reports : {S T : Type 0} → S → Node S T → List S → List (Node S T × List S)
  reports s (node v cs a) path = own_report s (node v cs a) path ++ reports_below cs (s ∷ path)

  pub reports_below : {S T : Type 0} → Children S T → List S → List (Node S T × List S)
  reports_below end path = []
  reports_below (child s n cs) path = reports_below cs path ++ reports s n path

-- The rounds that a node takes: one to enter it, one to leave it, and its children's.
unfoldable mutual
  pub rounds : {S T : Type 0} → Node S T → ℕ
  rounds (node v cs a) = 2 + rounds_below cs

  pub rounds_below : {S T : Type 0} → Children S T → ℕ
  rounds_below end = 0
  rounds_below (child s n cs) = rounds_below cs + rounds n

mutual
  unfolding reports reports_below rounds rounds_below report_loop push_children

  report_loop-node :
      {S T : Type 0} (s : S) (n : Node S T) (fuel : ℕ) (edges : List (DfsElem S T)) (path : List S)
      → report_loop (rounds n + fuel) (edge s n ∷ edges) path
        ≡ before (reports s n path) (report_loop fuel edges path)
  report_loop-node s (node v cs a) fuel edges path =
      let enough : 2 + rounds_below cs + fuel ≡ suc (rounds_below cs + suc fuel) = omega arith in
      rw (enough, report_loop-below cs (suc fuel) (node_end ∷ edges) (s ∷ path))
        (before-before (own_report s (node v cs a) path) (reports_below cs (s ∷ path))
          (report_loop fuel edges path))

  report_loop-below :
      {S T : Type 0} (cs : Children S T) (fuel : ℕ) (edges : List (DfsElem S T)) (path : List S)
      → report_loop (rounds_below cs + fuel) (push_children cs edges) path
        ≡ before (reports_below cs path) (report_loop fuel edges path)
  report_loop-below end fuel edges path =
      let none_left : 0 + fuel ≡ fuel = omega arith in
      rw none_left (before-nil (report_loop fuel edges path))
  report_loop-below (child s n cs) fuel edges path =
      let enough : rounds_below cs + rounds n + fuel ≡ rounds_below cs + (rounds n + fuel) =
        omega arith in
      rw
        (
          enough,
          report_loop-below cs (rounds n + fuel) (edge s n ∷ edges) path,
          report_loop-node s n fuel edges path,
        )
        (before-before (reports_below cs path) (reports s n path) (report_loop fuel edges path))
