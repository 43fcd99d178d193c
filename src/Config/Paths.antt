-- ===== src/Config/Paths.antt =====
-- `Generator::configure` of micropb-gen/src/lib.rs, and the configuration of a path that
-- `CurrentConfig` of micropb-gen/src/generator.rs follows.
use micropb.Prelude.{ℕ, Bool, true, false, ◌&&◌, Option, none, some, List, [], ◌∷◌}
use micropb.Prelude.{if◌then◌else◌, ◌==◌}
use micropb.Config.{Config, Text, merge}
use micropb.PathTree.{Node, value, access_value, next, add_path, set_value}
use micropb.PathTree.{visit_path}

abbrev pub Tree : Type 0
Tree = Node Text Config

-- The equality of `str`.
unfoldable pub same : Text → Text → Bool
same [] [] = true
same [] (d ∷ t) = false
same (c ∷ s) [] = false
same (c ∷ s) (d ∷ t) = let rest = same s t in (c == d) && rest

abbrev pub dot : ℕ
dot = 0x2e

abbrev pub push_front : ℕ → List Text → List Text
push_front c [] = (c ∷ []) ∷ []
push_front c (s ∷ segments) = (c ∷ s) ∷ segments

-- `name.split('.')`.
unfoldable pub split : Text → List Text
split [] = [] ∷ []
split (c ∷ name) = let rest = split name in if c == dot then [] ∷ rest else push_front c rest

abbrev pub keep : Text → List Text → List Text
keep [] segments = segments
keep (c ∷ s) segments = (c ∷ s) ∷ segments

-- `filter(|seg| !seg.is_empty())`.
unfoldable pub without_empty : List Text → List Text
without_empty [] = []
without_empty (s ∷ segments) = keep s (without_empty segments)

unfoldable pub split_pkg_name : Text → List Text
split_pkg_name name = without_empty (split name)

-- A path without its first dot.
abbrev pub stripped : Text → Text
stripped [] = []
stripped (c ∷ path) = if c == dot then path else c ∷ path

-- The slot of the path's node.
abbrev pub configured : Config → Option Config → Option Config
configured config none = some config
configured config (some existing) = some (merge existing config)

abbrev pub configure_slot : Config → Tree → Tree
configure_slot config n = set_value (configured config (value n)) n

unfoldable pub configure : Text → Config → Tree → Tree
configure proto_path config root =
    add_path same (split_pkg_name (stripped proto_path)) (configure_slot config) root

pub record CurrentConfig : Type 0 where
  pub node_at : Option Tree
  pub config : Config

abbrev pub merged : Config → Option Config → Config
merged config none = config
merged config (some conf) = merge config conf

-- `next_conf` on a node's child, which is marked.
abbrev pub at_child : Config → Option Tree → CurrentConfig
at_child config none = record { node_at = none; config = config }
at_child config (some n) = record {
  node_at = some (access_value n);
  config = merged config (value n);
}

abbrev pub next_at : Config → Text → Option Tree → CurrentConfig
next_at config segment none = record { node_at = none; config = config }
next_at config segment (some n) = at_child config (next same segment n)

-- The mark that it leaves in the tree of the current configuration is seen in what it returns.
unfoldable pub next_conf : CurrentConfig → Text → CurrentConfig
next_conf cur segment = next_at cur.config segment cur.node_at

-- The calls of `merge` as `visit_path` goes.
unfoldable pub merge_all : Config → List Config → Config
merge_all config [] = config
merge_all config (c ∷ cs) = merge_all (merge config c) cs

abbrev pub with_root : List Text → Tree → Option Config → Option CurrentConfig
with_root segments root none = none
with_root segments root (some conf) =
    let visit = visit_path same segments (access_value root) in
    some (record { node_at = visit.2; config = merge_all conf visit.1 })

-- `generate_fdproto` until the types are generated; no root configuration is a panic.
unfoldable pub file_config : Text → Tree → Option CurrentConfig
file_config pkg root = with_root (split_pkg_name pkg) root (value root)

-- The calls of `next_conf` on the names of nested types, fields and suffixes.
unfoldable pub below : CurrentConfig → List Text → CurrentConfig
below cur [] = cur
below cur (s ∷ names) = below (next_conf cur s) names
