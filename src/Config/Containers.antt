-- ===== src/Config/Containers.antt =====
-- `use_container_heapless`, `_arrayvec`, `_alloc` and `_std` of micropb-gen/src/lib.rs.
use Prim.Native.Char.{code}
use Prim.Native.String.{String}
use micropb.Prelude.{[], ◌∷◌, some}
use micropb.Config
use micropb.Config.{Text}
use micropb.Config.Paths.{Tree, configure}

-- The bytes of an ASCII text.
abbrev pub codes : String → Text
codes String.[] = []
codes (String.◌∷◌ c s) = code c ∷ codes s

unfoldable pub use_container_heapless : Tree → Tree
use_container_heapless = configure (codes ".") record Config.new {
  vec_type = some (codes "::micropb::heapless::Vec");
  string_type = some (codes "::micropb::heapless::String");
  map_type = some (codes "::micropb::heapless::FnvIndexMap");
}

unfoldable pub use_container_arrayvec : Tree → Tree
use_container_arrayvec = configure (codes ".") record Config.new {
  vec_type = some (codes "::micropb::arrayvec::ArrayVec");
  string_type = some (codes "::micropb::arrayvec::ArrayString");
}

unfoldable pub use_container_alloc : Tree → Tree
use_container_alloc = configure (codes ".") record Config.new {
  vec_type = some (codes "::alloc::vec::Vec");
  string_type = some (codes "::alloc::string::String");
  map_type = some (codes "::alloc::collections::BTreeMap");
}

unfoldable pub use_container_std : Tree → Tree
use_container_std = configure (codes ".") record Config.new {
  vec_type = some (codes "::std::vec::Vec");
  string_type = some (codes "::std::string::String");
  map_type = some (codes "::std::collections::HashMap");
}
