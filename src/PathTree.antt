-- ===== src/PathTree.antt =====
-- micropb-gen/src/pathtree.rs: the tree of configurations by path. Segments are of any type with a
-- test of equality. The `Cell` that marks a node as accessed is a part of the node, and what is
-- borrowed mutably is passed back in.
pub mod Find
pub mod Unused
use micropb.Prelude.{
  ℕ, zero, suc, Bool, true, false, not, ◌&&◌, List, [], ◌∷◌, ◌++◌, Option, none, some,
}
use micropb.Prelude.{if◌then◌else◌}

-- The fields `value`, `children` and `accessed`.
mutual
  pub data Node (S T : Type 0) : Type 0 where
    node : Option T → Children S T → Bool → Node S T

  pub data Children (S T : Type 0) : Type 0 where
    end : Children S T
    child : S → Node S T → Children S T → Children S T

pub data DfsElem (S T : Type 0) : Type 0 where
  edge : S → Node S T → DfsElem S T
  node_end : DfsElem S T

abbrev pub tail : {S : Type 0} → List S → List S
tail [] = []
tail (s ∷ path) = path

-- What is reported before the rest, if the loop ends.
abbrev pub before : {A : Type 0} → List A → Option (List A) → Option (List A)
before xs none = none
before xs (some r) = some (xs ++ r)

-- What `visit_path` leaves, calls and returns.
abbrev pub Visit : Type 0 → Type 0 → Type 0
Visit S T = Node S T × List T × Option (Node S T)

module _ {S T : Type 0} where
  -- `Default`.
  abbrev pub empty : Node S T
  empty = node none end false

  abbrev pub value : Node S T → Option T
  value (node v cs a) = v

  abbrev pub children : Node S T → Children S T
  children (node v cs a) = cs

  abbrev pub is_accessed : Node S T → Bool
  is_accessed (node v cs a) = a

  -- The node that `access_value` leaves; the value that it returns is `value`.
  abbrev pub access_value : Node S T → Node S T
  access_value (node v cs a) = node v cs true

  -- `*node.value_mut() = v`.
  abbrev pub set_value : Option T → Node S T → Node S T
  set_value w (node v cs a) = node w cs a

  -- `PathTree::new`.
  unfoldable pub new : T → Node S T
  new x = node (some x) end true

  module _ (same : S → S → Bool) where
    unfoldable pub find_child : S → Children S T → Option (Node S T)
    find_child s end = none
    find_child s (child c n cs) = let later = find_child s cs in if same c s then some n else later

    unfoldable pub next : S → Node S T → Option (Node S T)
    next s n = find_child s (children n)

    -- The first child of that name is changed, or a new one is pushed.
    unfoldable pub change_child : S → (Node S T → Node S T) → Children S T → Children S T
    change_child s f end = child s (f empty) end
    change_child s f (child c n cs) =
        let later = child c n (change_child s f cs) in if same c s then child c (f n) cs else later

    -- The node that `add_path` returns is changed by `f`.
    unfoldable pub add_path : List S → (Node S T → Node S T) → Node S T → Node S T
    add_path [] f n = f n
    add_path (s ∷ path) f (node v cs a) = node v (change_child s (add_path path f) cs) a

    abbrev pub called : Option T → List T → List T
    called none xs = xs
    called (some x) xs = x ∷ xs

    -- The tree with the nodes on the path marked, the values that the callback is given, and the
    -- node at the end of the path.
    -- Goes on from the child `found` for the segment `s`, or gives up.
    unfoldable pub visit_next :
        (Node S T → Visit S T) → S → Node S T → Option (Node S T) → Visit S T
    visit_next go_on s n none = (n, [], none)
    visit_next go_on s (node v cs a) (some m) =
        let out = go_on (access_value m) in
        (node v (change_child s (λ old. out.0) cs) a, called (value m) out.1, out.2)

    unfoldable pub visit_path : List S → Node S T → Visit S T
    visit_path [] n = (n, [], some n)
    visit_path (s ∷ path) n = visit_next (visit_path path) s n (next s n)

  -- Each child is pushed on the stack, so that the last of them is on top.
  unfoldable pub push_children : Children S T → List (DfsElem S T) → List (DfsElem S T)
  push_children end edges = edges
  push_children (child s n cs) edges = push_children cs (edge s n ∷ edges)

  abbrev pub is_unused : Node S T → Bool
  is_unused (node none cs a) = false
  is_unused (node (some x) cs a) = not a

  -- The reporter's call for a node, behind the path to its parent.
  abbrev pub own_report : S → Node S T → List S → List (Node S T × List S)
  own_report s n path = if is_unused n then (n, s ∷ path) ∷ [] else []

  -- The loop of `find_all_unaccessed`: the nodes and paths that are reported. A path is held with
  -- its last segment first.
  unfoldable pub report_loop : ℕ → List (DfsElem S T) → List S → Option (List (Node S T × List S))
  report_loop fuel [] path = some []
  report_loop zero (e ∷ edges) path = none
  report_loop (suc fuel) (edge s n ∷ edges) path =
      let more = report_loop fuel (push_children (children n) (node_end ∷ edges)) (s ∷ path) in
      before (own_report s n path) more
  report_loop (suc fuel) (node_end ∷ edges) path = report_loop fuel edges (tail path)

  unfoldable pub find_all_unaccessed : ℕ → S → Node S T → Option (List (Node S T × List S))
  find_all_unaccessed fuel no_name root = report_loop fuel (edge no_name root ∷ []) []
