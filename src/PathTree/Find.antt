-- ===== src/PathTree/Find.antt =====
-- What `add_path`, `next` and `visit_path` find.
use micropb.Prelude.{◌≡◌, refl, sym, Bool, true, false, Bool-cases, inl, inr}
use micropb.Prelude.{List, [], ◌∷◌, Option, none, some}
use micropb.PathTree.{
  Node, Children, node, end, child, empty, value, children, set_value, access_value,
}
use micropb.PathTree.{find_child, next, change_child, add_path, visit_path, visit_next}

module _ {S T : Type 0} (same : S → S → Bool) where
  abbrev pub or_empty : Option (Node S T) → Node S T
  or_empty none = empty
  or_empty (some n) = n

  -- The node at the end of a path, empty where the path is not there.
  abbrev pub held : List S → Node S T → Node S T
  held [] n = n
  held (s ∷ path) n = held path (or_empty (find_child same s (children n)))

  -- The child that was changed is found, changed; it was empty if there was none.
  pub find_child-change_child :
      ((s : S) → same s s ≡ true)
      → (s : S) (f : Node S T → Node S T) (cs : Children S T)
      → find_child same s (change_child same s f cs) ≡ some (f (or_empty (find_child same s cs)))
  unfolding find_child change_child
  find_child-change_child self s f end = rw (self s) refl
  find_child-change_child self s f (child c n cs) = elim (Bool-cases (same c s)) [
    | inl here ↦ rw here (rw here refl)
    | inr later ↦ rw later (rw later (find_child-change_child self s f cs))
  ]

  abbrev pub value_of : Option (Node S T) → Option (Option T)
  value_of none = none
  value_of (some n) = some (value n)

  access_value-add_path :
      (path : List S) (w : Option T) (n : Node S T)
      → access_value (add_path same path (set_value w) n)
        ≡ add_path same path (set_value w) (access_value n)
  unfolding add_path
  access_value-add_path [] w (node v cs a) = refl
  access_value-add_path (s ∷ path) w (node v cs a) = refl

  -- For a reflexive test of segments, a visit of a path at whose end `add_path` has put a value
  -- ends at a node with that value.
  pub visit_path-add_path :
      ((s : S) → same s s ≡ true)
      → (path : List S) (x : T) (n : Node S T)
      → value_of (visit_path same path (add_path same path (set_value (some x)) n)).2
        ≡ some (some x)
  unfolding add_path visit_path visit_next next
  visit_path-add_path self [] x (node v cs a) = refl
  visit_path-add_path self (s ∷ path) x (node v cs a) =
      rw
        (
          find_child-change_child self s (add_path same path (set_value (some x))) cs,
          access_value-add_path path (some x) (or_empty (find_child same s cs)),
        )
        (visit_path-add_path self path x (access_value (or_empty (find_child same s cs))))

  find_child-change_child_other :
      ((a b : S) → same a b ≡ true → a ≡ b)
      → (s t : S) (f : Node S T → Node S T) (cs : Children S T) → same s t ≡ false
      → find_child same t (change_child same s f cs) ≡ find_child same t cs
  unfolding find_child change_child
  find_child-change_child_other exact s t f end h = rw h refl
  find_child-change_child_other exact s t f (child c n cs) h = elim (Bool-cases (same c s)) [
    | inl here ↦
        let missed : same c t ≡ false = rw (sym (exact c s here)) at h in rw here (rw missed refl)
    | inr later ↦ rw later (rw (find_child-change_child_other exact s t f cs h) refl)
  ]

  -- For an exact test of segments, `add_path` below one segment leaves what `next` finds at another
  -- segment as it was.
  pub next-add_path :
      ((a b : S) → same a b ≡ true → a ≡ b)
      → (s t : S) (path : List S) (f : Node S T → Node S T) (n : Node S T) → same s t ≡ false
      → next same t (add_path same (s ∷ path) f n) ≡ next same t n
  unfolding next add_path
  next-add_path exact s t path f (node v cs a) h =
      find_child-change_child_other exact s t (add_path same path f) cs h
