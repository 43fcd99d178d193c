-- ===== src/Examples/Configs.antt =====
-- Configurations by path, at concrete inputs.
use micropb.Prelude.{◌≡◌, refl, true, false, Option, none, some, [], ◌∷◌}
use micropb.TypeSpec.{s8}
use micropb.PathTree
use micropb.PathTree.Find.{held}
use micropb.Config
use micropb.Config.{Config, Text, merge}
use micropb.Config.Paths.{Tree, same, split, without_empty, split_pkg_name, stripped, configure}
use micropb.Config.Paths.{file_config, below, next_conf, merge_all}
use micropb.Config.Settings.{get, int_setting, vec_setting, last_set}
use micropb.Config.Containers.{codes, use_container_alloc}
use micropb.Config.Below.{values_on}
use micropb.Config.Found.{found, configure-Found}

-- The crate's own test of `merge`.
abbrev mergee : Config
mergee = record Config.new {
  rename_field = some (codes "rename");
  skip = some true;
  vec_type = some (codes "vec");
  string_type = some (codes "str");
}

merged_test :
    merge mergee (record Config.new { skip = some false; vec_type = some (codes "array") })
    ≡ record Config.new {
      skip = some false;
      vec_type = some (codes "array");
      string_type = some (codes "str");
    }
unfolding merge
merged_test = refl

segments_test : split_pkg_name (codes "pkg..Message.") ≡ codes "pkg" ∷ codes "Message" ∷ []
unfolding split_pkg_name split without_empty
segments_test = refl

abbrev start : Tree
start = PathTree.node (some Config.new) PathTree.end true

abbrev small : Config
small = record Config.new { int_size = some s8 }

configure-Found_example :
    found int_setting
      (codes "Message" ∷ codes "field" ∷ [])
      (file_config (codes "pkg") (configure (codes ".pkg.Message") small start))
    ≡ last_set int_setting (some s8) (
        values_on
          (codes "field" ∷ [])
          (held same (split_pkg_name (stripped (codes ".pkg.Message"))) start))
unfolding get split_pkg_name split without_empty
configure-Found_example =
    configure-Found int_setting small s8 refl (codes ".pkg.Message") (codes "pkg")
      (codes "Message" ∷ codes "field" ∷ []) (codes "field" ∷ []) refl Config.new start refl

vec_of_file :
    found vec_setting [] (file_config [] (use_container_alloc start))
    ≡ some (codes "::alloc::vec::Vec")
unfolding use_container_alloc configure split_pkg_name split without_empty get file_config
    PathTree.add_path PathTree.visit_path merge_all merge below
vec_of_file = refl

abbrev rename_of : Option (Config.Paths.CurrentConfig) → Option Text
rename_of none = none
rename_of (some cur) = (below cur (codes "field" ∷ [])).config.rename_field

-- A path without a configuration of its own has the name of the path above it.
renamed_below :
    rename_of (
      file_config
        (codes "Message")
        (configure (codes "Message") (record Config.new { rename_field = some (codes "x") }) start))
    ≡ some (codes "x")
unfolding configure split_pkg_name split without_empty file_config PathTree.add_path
    PathTree.change_child PathTree.find_child PathTree.next PathTree.visit_path PathTree.visit_next
    merge_all merge below next_conf same
renamed_below = refl
