-- ===== src/Config/Below.antt =====
-- What `next_conf` finds below a node, and below a path that was configured.
use micropb.Prelude.{◌≡◌, refl, sym, ap, ◌∙◌, true, Option, none, some, List, [], ◌∷◌, ◌++◌}
use micropb.Prelude.{eq→==}
use micropb.PathTree.{node, children, value, access_value, next, find_child}
use micropb.PathTree.{add_path}
use micropb.PathTree.Find.{held, or_empty, find_child-change_child}
use micropb.Config.{Config, Text, merge}
use micropb.Config.Paths.{Tree, same, configured, configure_slot}
use micropb.Config.Paths.{merged, at_child, next_conf, below}
use micropb.Config.Settings.{Setting, Value, get, get-merge, last_set, newest}

same_self : (s : Text) → same s s ≡ true
unfolding same
same_self [] = refl
same_self (c ∷ s) = rw (eq→== c c refl) (same_self s)

abbrev pub first : Option Config → List Config → List Config
first none cs = cs
first (some c) cs = c ∷ cs

abbrev pub values_from : (Tree → List Config) → Option Tree → List Config
values_from more none = []
values_from more (some n) = first (value n) (more n)

-- The configurations on a path below a node, as far as the path is there.
unfoldable pub values_on : List Text → Tree → List Config
values_on [] n = []
values_on (s ∷ names) n = values_from (values_on names) (find_child same s (children n))

-- The value and the mark of the node itself do not matter.
values_on-children :
    (names : List Text) (m n : Tree)
    → children m ≡ children n
    → values_on names m ≡ values_on names n
unfolding values_on
values_on-children [] m n e = refl
values_on-children (s ∷ names) m n e = rw e refl

children-access_value : (n : Tree) → children (access_value n) ≡ children n
children-access_value (node v cs a) = refl

children-configure_slot : (c : Config) (n : Tree) → children (configure_slot c n) ≡ children n
children-configure_slot c (node v cs a) = refl

pub value-configure_slot :
    (c : Config) (n : Tree) → value (configure_slot c n) ≡ configured c (value n)
value-configure_slot c (node v cs a) = refl

abbrev under : List Text → Option Tree → List Config
under names none = []
under names (some n) = values_on names n

module _ (o : Setting) where
  get-merged :
      (conf : Config) (v : Option Config) (cs : List Config)
      → last_set o (get o (merged conf v)) cs ≡ last_set o (get o conf) (first v cs)
  get-merged conf none cs = refl
  get-merged conf (some c) cs = ap (λ x. last_set o x cs) (get-merge o conf c)

  -- The names below a child, if it is so for the node that the child leads to.
  get-child :
      (names : List Text) (conf : Config) (m : Option Tree)
      → ((k : Config) (n : Option Tree)
          → get o (below (record { node_at = n; config = k }) names).config
            ≡ last_set o (get o k) (under names n))
      → get o (below (at_child conf m) names).config
        ≡ last_set o (get o conf) (values_from (values_on names) m)
  get-child names conf none h = h conf none
  get-child names conf (some m) h =
      h (merged conf (value m)) (some (access_value m))
      ∙ ap (last_set o (get o (merged conf (value m))))
          (values_on-children names (access_value m) m (children-access_value m))
      ∙ get-merged conf (value m) (values_on names m)

  get-below :
      (names : List Text) (conf : Config) (n : Option Tree)
      → get o (below (record { node_at = n; config = conf }) names).config
        ≡ last_set o (get o conf) (under names n)
  unfolding below next_conf values_on next
  get-below [] conf none = refl
  get-below [] conf (some n) = refl
  get-below (s ∷ names) conf none = get-below names conf none
  get-below (s ∷ names) conf (some n) =
      get-child names conf (find_child same s (children n)) (λ k m. get-below names k m)

  -- A slot that was configured has the option.
  module _ (c : Config) (x : Value o) (h : get o c ≡ some x) where
    get-configured :
        (conf : Config) (v : Option Config) → get o (merged conf (configured c v)) ≡ some x
    get-configured conf none = get-merge o conf c ∙ ap (newest (get o conf)) h
    get-configured conf (some e) =
        get-merge o conf (merge e c)
        ∙ ap (newest (get o conf)) (get-merge o e c ∙ ap (newest (get o e)) h)

    here-Found :
        (rest : List Text) (conf : Config) (m n : Tree)
        → children m ≡ children n
        → get o conf ≡ some x
        → get o (below (record { node_at = some m; config = conf }) rest).config
          ≡ last_set o (some x) (values_on rest n)
    here-Found rest conf m n e g =
        get-below rest conf (some m)
        ∙ ap (last_set o (get o conf)) (values_on-children rest m n e)
        ∙ ap (λ y. last_set o y (values_on rest n)) g

    abbrev option_of : Option Config → Option (Value o)
    option_of none = none
    option_of (some k) = get o k

    -- A step from a node whose path was configured is to the child that was configured.
    step :
        (s : Text) (path names : List Text) (conf : Config) (n : Tree)
        → below
            (record {
              node_at = some (access_value (add_path same (s ∷ path) (configure_slot c) n));
              config = conf;
            })
            (s ∷ names)
          ≡ below
              (at_child conf (
                some (
                  add_path same path
                    (configure_slot c)
                    (or_empty same (find_child same s (children n))))))
              names
    unfolding add_path below next_conf next
    step s path names conf (node v cs a) =
        ap (λ m. below (at_child conf m) names)
          (find_child-change_child same same_self s (add_path same path (configure_slot c)) cs)

    held_step :
        (s : Text) (path : List Text) (n : Tree)
        → held same (s ∷ path) n ≡ held same path (or_empty same (find_child same s (children n)))
    held_step s path n = refl

    path-Found :
        (path rest : List Text) (conf : Config) (m : Tree)
        → get o
            (below
              (at_child conf (some (add_path same path (configure_slot c) m)))
              (path ++ rest)).config
          ≡ last_set o (some x) (values_on rest (held same path m))
    path-Found [] rest conf m =
        unfold add_path in
        here-Found rest (merged conf (value (configure_slot c m)))
          (access_value (configure_slot c m)) m
          (children-access_value (configure_slot c m) ∙ children-configure_slot c m)
          (ap (λ v. get o (merged conf v)) (value-configure_slot c m)
            ∙ get-configured conf (value m))
    path-Found (s ∷ path) rest conf m =
        ap (λ cur. get o cur.config)
          (step s path (path ++ rest)
            (merged conf (value (add_path same (s ∷ path) (configure_slot c) m))) m)
        ∙ path-Found path rest (merged conf (value (add_path same (s ∷ path) (configure_slot c) m)))
            (or_empty same (find_child same s (children m)))

    pub root-Found :
        (path rest : List Text) (r : Config) (m : Tree)
        → value m ≡ some r
        → (k : Config) → value (add_path same path (configure_slot c) m) ≡ some k
        → get o
            (below
              (record {
                node_at = some (access_value (add_path same path (configure_slot c) m));
                config = k;
              })
              (path ++ rest)).config
          ≡ last_set o (some x) (values_on rest (held same path m))
    root-Found [] rest r m e k g =
        unfold add_path in
        here-Found rest k (access_value (configure_slot c m)) m
          (children-access_value (configure_slot c m) ∙ children-configure_slot c m)
          (ap option_of (sym g ∙ value-configure_slot c m ∙ ap (configured c) e)
            ∙ get-configured r none)
    root-Found (s ∷ path) rest r m e k g =
        ap (λ cur. get o cur.config) (step s path (path ++ rest) k m)
        ∙ path-Found path rest k (or_empty same (find_child same s (children m)))
