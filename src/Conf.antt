-- ===== src/Conf.antt =====
-- The configuration file that pkg/flexblock/flexblock.go's `init` reads, and the node list of
-- pkg/flexblock/controllerserver.go's CreateVolume: bufio.Reader.ReadString('\n') over their text.
pub mod Laws
use csi_driver_flexblock.Prelude.{
  String, Option, none, some, List, [], ◌∷◌, ◌=ₛ◌, if◌then◌else◌, refl,
}
use csi_driver_flexblock.Prelude.Text.{split, trim_space, cut}
use csi_driver_flexblock.Volume.{insert}

-- The lines that end in a newline; ReadString returns an error with what stands behind the last.
unfoldable pub full_lines : List String → List String
full_lines [] = []
full_lines (l ∷ []) = []
full_lines (l ∷ m ∷ ls) = l ∷ full_lines (m ∷ ls)

-- strings.Index(line, "=") > 0 : the key is not empty
abbrev pub add_setting : Option (String × String) → List (String × String) → List (String × String)
add_setting none conf = conf
add_setting (some (key, value)) conf = if key =ₛ "" then conf else insert key value conf

unfoldable pub read_conf : List (String × String) → List String → List (String × String)
unfolding trim_space cut insert
read_conf conf [] = conf
read_conf conf (l ∷ ls) = read_conf (add_setting (cut "=" (trim_space l)) conf) ls

-- The globals' `confinfo` after `init`: `none` where the file cannot be opened.
unfoldable pub init_conf : Option String → List (String × String)
unfolding read_conf full_lines split
init_conf none = []
init_conf (some text) = read_conf [] (full_lines (split 10 text))

-- The nodes of the node list file: its lines, the last one also with no newline behind it.
unfoldable pub node_list : List String → List String
unfolding trim_space
node_list [] = []
node_list (l ∷ ls) =
    let rest = node_list ls in let name = trim_space l in if name =ₛ "" then rest else name ∷ rest
