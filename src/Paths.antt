-- ===== src/Paths.antt =====
-- Names of files: pkg/flexblock/flexblock.go's getVolumePath and getSnapshotID,
-- pkg/flexblock/controllerserver.go's getSnapshotPath, and what they use of path/filepath.
pub mod Laws
use csi_driver_flexblock.Prelude.{
  ℕ, String, Bool, true, false, ◌&&◌, ◌||◌, not, List, [], ◌∷◌, ◌=ₛ◌, ◌==◌, if◌then◌else◌, Option,
}
use csi_driver_flexblock.Prelude.Text.{◌<>◌, split}
use Prim.Native.Char.{code}

abbrev pub data_root : String
data_root = "/csi-flexblock-data-dir"

abbrev pub snapshot_ext : String
snapshot_ext = ".snap"

unfoldable pub has_char : ℕ → String → Bool
has_char c String.[] = false
has_char c (String.◌∷◌ d s) = (code d == c) || has_char c s

-- filepath.Ext: the text from the last dot of the last element of a path
unfoldable pub ext : String → String
unfolding has_char
ext String.[] = ""
ext (String.◌∷◌ c s) =
    let later = ext s in
    if not (later =ₛ "")
    then later
    else if (code c == b'.') && not (has_char b'/' s)
    then String.◌∷◌ c s
    else ""

-- strings.TrimSuffix(s, suffix)
unfoldable pub trim_suffix : String → String → String
trim_suffix suffix String.[] = ""
trim_suffix suffix (String.◌∷◌ c s) =
    let rest = trim_suffix suffix s in if String.◌∷◌ c s =ₛ suffix then "" else String.◌∷◌ c rest

-- getSnapshotID
unfoldable pub get_snapshot_id : String → Bool × String
unfolding ext trim_suffix
get_snapshot_id file =
    if ext file =ₛ snapshot_ext then (true, trim_suffix snapshot_ext file) else (false, "")

abbrev pop : List String → List String
pop [] = []
pop (x ∷ xs) = xs

-- filepath.Clean of a rooted path: the elements kept so far, the last one first
unfoldable pub clean : List String → List String → List String
clean kept [] = kept
clean kept (x ∷ xs) =
    clean (if (x =ₛ "") || (x =ₛ ".") then kept else if x =ₛ ".." then pop kept else x ∷ kept) xs

unfoldable pub join_slash : List String → String → String
unfolding ◌<>◌
join_slash [] tail = tail
join_slash (x ∷ xs) tail = join_slash xs ("/" <> x <> tail)

-- the path of the elements kept, and `/` for none
unfoldable pub rooted : List String → String
unfolding join_slash
rooted [] = "/"
rooted (x ∷ xs) = join_slash (x ∷ xs) ""

-- filepath.Join(dataRoot, name)
unfoldable pub join_root : String → String
unfolding split clean rooted
join_root name = rooted (clean ("csi-flexblock-data-dir" ∷ []) (split b'/' name))

-- getVolumePath
unfoldable pub get_volume_path : String → String
unfolding join_root
get_volume_path vol_id = join_root vol_id

-- getSnapshotPath
unfoldable pub get_snapshot_path : String → String
unfolding join_root ◌<>◌
get_snapshot_path snapshot_id = join_root (snapshot_id <> snapshot_ext)
