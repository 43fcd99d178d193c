-- ===== src/Config/Found.antt =====
-- What the generator finds at a path that was configured, and at the paths below it.
use micropb.Prelude.{◌≡◌, refl, sym, ap, ◌∙◌, Option, none, some, List, [], ◌∷◌, ◌++◌}
use micropb.PathTree.{node, value, access_value, next}
use micropb.PathTree.{add_path, visit_path, visit_next, called}
use micropb.PathTree.Find.{held}
use micropb.Config.{Config, Text, merge}
use micropb.Config.Paths.{
  Tree, same, split_pkg_name, stripped, configured, configure_slot, configure,
}
use micropb.Config.Paths.{CurrentConfig, merged, at_child, next_conf, merge_all, file_config, below}
use micropb.Config.Settings.{Setting, Value, get, last_set}
use micropb.Config.Below.{values_on, root-Found, value-configure_slot}

-- A path that is not there.
below-none :
    (names : List Text) (conf : Config)
    → below (record { node_at = none; config = conf }) names
      ≡ record { node_at = none; config = conf }
unfolding below next_conf
below-none [] conf = refl
below-none (s ∷ names) conf = below-none names conf

below_append :
    (path rest : List Text) (cur : CurrentConfig)
    → below cur (path ++ rest) ≡ below (below cur path) rest
unfolding below
below_append [] rest cur = refl
below_append (s ∷ path) rest cur = below_append path rest (next_conf cur s)

-- What a file starts with.
abbrev visited : Config → (Tree × List Config × Option Tree) → CurrentConfig
visited conf visit = record { node_at = visit.2; config = merge_all conf visit.1 }

merge_all-called :
    (conf : Config) (v : Option Config) (cs : List Config)
    → merge_all conf (called same v cs) ≡ merge_all (merged conf v) cs
unfolding merge_all
merge_all-called conf none cs = refl
merge_all-called conf (some c) cs = refl

visited-next :
    (path : List Text) (s : Text) (conf : Config) (n : Tree) (m : Option Tree)
    → ((k : Config) (child : Tree)
        → visited k (visit_path same path child)
          ≡ below (record { node_at = some child; config = k }) path)
    → visited conf (visit_next same (visit_path same path) s n m) ≡ below (at_child conf m) path
unfolding visit_next
visited-next path s conf n none h = unfold merge_all in sym (below-none path conf)
visited-next path s conf (node v cs a) (some m) h =
    let out = visit_path same path (access_value m) in
    ap (λ k. record { node_at = out.2; config = k }) (merge_all-called conf (value m) out.1)
    ∙ h (merged conf (value m)) (access_value m)

visited-below :
    (path : List Text) (conf : Config) (n : Tree)
    → visited conf (visit_path same path n)
      ≡ below (record { node_at = some n; config = conf }) path
unfolding visit_path below next_conf merge_all
visited-below [] conf n = refl
visited-below (s ∷ path) conf n =
    visited-next path s conf n (next same s n) (λ k child. visited-below path k child)

value-add_path :
    (c : Config) (path : List Text) (m : Tree) (r : Config)
    → value m ≡ some r
    → (k : Config) × (value (add_path same path (configure_slot c) m) ≡ some k)
unfolding add_path
value-add_path c [] m r e = (merge r c, value-configure_slot c m ∙ ap (configured c) e)
value-add_path c (s ∷ path) (node v cs a) r e = (r, e)

abbrev pub found : (o : Setting) → List Text → Option CurrentConfig → Option (Value o)
found o names none = none
found o names (some cur) = get o (below cur names).config

-- For every option but `rename_field`, if a configuration with that option set is given to
-- `configure` for a path, in a tree whose root has a configuration, then at every path that goes on
-- from that one by some names, which the package of a file and the names of types and fields in it
-- make up, the generator finds the option with the last value that the tree has below the path on
-- these names, or else with the value that was configured.
pub configure-Found :
    (o : Setting) (c : Config) (x : Value o)
    → get o c ≡ some x
    → (proto_path pkg : Text) (names rest : List Text)
    → split_pkg_name (stripped proto_path) ++ rest ≡ split_pkg_name pkg ++ names
    → (r : Config) (root : Tree) → value root ≡ some r
    → found o names (file_config pkg (configure proto_path c root))
      ≡ last_set o (some x) (values_on rest (held same (split_pkg_name (stripped proto_path)) root))
unfolding file_config configure
configure-Found o c x h proto_path pkg names rest same_path r root e =
    let path = split_pkg_name (stripped proto_path) in
    let kept = value-add_path c path root r e in
    let tree = access_value (add_path same path (configure_slot c) root) in
    let start : CurrentConfig = record { node_at = some tree; config = kept.0 } in
    rw kept.1 (
      ap (λ cur. get o (below cur names).config) (visited-below (split_pkg_name pkg) kept.0 tree)
      ∙ ap (λ cur. get o cur.config) (sym (below_append (split_pkg_name pkg) names start))
      ∙ ap (λ p. get o (below start p).config) (sym same_path)
      ∙ root-Found o c x h path rest r root e kept.0 kept.1)
