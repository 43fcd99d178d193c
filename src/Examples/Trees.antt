-- ===== src/Examples/Trees.antt =====
-- The theorems on the configuration tree at concrete inputs.
use micropb.Prelude.{ℕ, true, ◌==◌, eq→==, ==→eq, ◌≡◌, refl, [], ◌∷◌, some, none, false}
use micropb.PathTree
use micropb.PathTree.{Node, node, end, child}
use micropb.PathTree.Find
use micropb.PathTree.Unused

-- One child with a value that was not looked up, and one without a value that has such a child.
abbrev config : Node ℕ ℕ
config =
    node (some 1)
      (child 10 (node (some 2) end false)
        (child 11 (node none (child 12 (node (some 3) end false) end) false) end))
      true

visit_path-add_path_example :
    Find.value_of ◌==◌
      (PathTree.visit_path ◌==◌
        (11 ∷ 13 ∷ [])
        (PathTree.add_path ◌==◌ (11 ∷ 13 ∷ []) (PathTree.set_value (some 9)) config)).2
    ≡ some (some 9)
visit_path-add_path_example =
    Find.visit_path-add_path ◌==◌ (λ s. eq→== s s refl) (11 ∷ 13 ∷ []) 9 config

next-add_path_example :
    PathTree.next ◌==◌ 10
      (PathTree.add_path ◌==◌ (11 ∷ 13 ∷ []) (PathTree.set_value (some 9)) config)
    ≡ PathTree.next ◌==◌ 10 config
next-add_path_example =
    Find.next-add_path ◌==◌ ==→eq 11 10 (13 ∷ []) (PathTree.set_value (some 9)) config refl

-- The two unused values, the last child's first.
unused_run :
    PathTree.find_all_unaccessed 10 0 config
    ≡ some
        ((node (some 3) end false, 12 ∷ 11 ∷ 0 ∷ []) ∷ (node (some 2) end false, 10 ∷ 0 ∷ []) ∷ [])
unfolding PathTree.find_all_unaccessed PathTree.report_loop PathTree.push_children
unused_run = refl
