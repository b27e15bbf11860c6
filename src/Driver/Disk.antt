-- ===== src/Driver/Disk.antt =====
-- Devices and targets, as createFlexblockVolume, updateFlexblockVolume and deleteFlexblockVolume of
-- pkg/flexblock/flexblock.go look for them.
use csi_driver_flexblock.Sys.{read_link, read_dir, run}
use csi_driver_flexblock.Http.{setting}
use csi_driver_flexblock.Volume.{mib}
use Prim.Native.Char.{code, Char}
use csi_driver_flexblock.Env.{Env}
use csi_driver_flexblock.Go.{internal, status, pure, require, ◌>>=◌, Go}
use csi_driver_flexblock.Prelude.Int.{negsuc, quot_ℤ, pos, ℤ}
use csi_driver_flexblock.Prelude.Text.{
  base_name, skip, split, size, has_prefix, ◌<>◌, strip_prefix, cut_last,
}
use csi_driver_flexblock.Prelude.Decimal.{show_ℤ, read_digits}
use csi_driver_flexblock.Prelude.{
  ◌+◌, ◌&&◌, not, ◌==◌, ◌-◌, ◌=ₛ◌, leb, ◌^◌, if◌then◌else◌, min, ℕ, String, Option, none, some,
  List, [], ◌∷◌,
}

-- a command whose error the source returns as codes.Internal
unfoldable pub checked : Env → List String → Go (Unit {0})
checked env args = do out ← run env args; require (not out.failed) (status internal)

-- the name of the target of a volume in local mode
unfoldable pub local_iqn : String → String
local_iqn vol_id = "iqn.2017-10-30.kx.flexcsi-" <> vol_id

unfoldable pub remote_iqn : String → String
remote_iqn vol_id = "iqn.2017-10-30.kx.flex-" <> vol_id

unfoldable pub local_disk : String → String
local_disk vol_id = "/dev/disk/by-path/ip-127.0.0.1:3260-iscsi-" <> local_iqn vol_id <> "-lun-1"

-- fmt.Sprintf("%dM", capacity/mib)
unfoldable pub size_in_mib : ℤ → String
size_in_mib capacity = show_ℤ (quot_ℤ capacity mib) <> "M"

abbrev prepend_char : Char → Option String → Option String
prepend_char c none = none
prepend_char c (some s) = some (String.◌∷◌ c s)

-- The digits at the front of a text, if a colon follows them.
unfoldable pub digits_colon : String → Option String
digits_colon String.[] = none
digits_colon (String.◌∷◌ c s) =
    let rest = prepend_char c (digits_colon s) in
    if leb 48 (code c) && leb (code c) 57 then rest else if code c == b':' then some "" else none

abbrev digits_behind : Option String → Option String
digits_behind none = none
digits_behind (some r) = elim (digits_colon r) [
  | none ↦ none
  | some d ↦ if d =ₛ "" then none else some d
]

abbrev first_of_two : Option String → Option String → Option String
first_of_two none o = o
first_of_two (some d) o = some d

-- The digits in the first match of the regular expression `Target [\d]+:`.
unfoldable pub find_target_digits : String → Option String
find_target_digits String.[] = none
find_target_digits (String.◌∷◌ c s) =
    first_of_two (digits_behind (strip_prefix "Target " (String.◌∷◌ c s))) (find_target_digits s)

-- strconv.Atoi of digits, whose range error is ignored: the largest int then
unfoldable pub atoi : String → ℕ
atoi digits = elim (read_digits 0 digits) [ none ↦ 0 | some n ↦ min n (2 ^ 63 - 1) ]

-- int(lasttid+1), of 64 bits
unfoldable pub next_int : ℕ → ℤ
next_int n = if n == 2 ^ 63 - 1 then negsuc (2 ^ 63 - 1) else pos (n + 1)

abbrev next_of_last : Option (String × String) → Option ℤ
next_of_last none = some (pos 1)
next_of_last (some (front, rest)) = elim (find_target_digits ("Target " <> rest)) [
  | none ↦ none
  | some d ↦ some (next_int (atoi d))
]

-- The number for a new target: one more than that of the last target shown, and 1 for none. `none`
-- is a slice out of range, where no number stands behind the last `Target `.
unfoldable pub next_tid : String → Option ℤ
next_tid out = next_of_last (cut_last "Target " out)

-- MEId1[index+7:l3-1], for the match MEId1 and the last index of it in MEId
abbrev tid_at : String → Option (String × String) → Option ℕ
tid_at digits none = some 0
tid_at digits (some (front, rest)) =
    if leb (size front) (size digits) then some (atoi (skip (size front) digits)) else none

-- The number of the target to delete, from the match MEId; `none` is a slice out of range.
unfoldable pub tid_of_match : String → Option ℕ
tid_of_match meid = elim (find_target_digits meid) [
  | none ↦ none
  | some digits ↦ tid_at digits (cut_last ("Target " <> digits <> ":") meid)
]

-- The first file of /dev/disk/by-path/ for the target, as a path, or `old`.
unfoldable pub first_path : String → String → List String → String
first_path prefix old [] = old
first_path prefix old (f ∷ fs) =
    if has_prefix f prefix then "/dev/disk/by-path/" <> f else first_path prefix old fs

abbrev or_empty : Option String → String
or_empty none = ""
or_empty (some s) = s

-- storiplist[0]
abbrev pub first_ip : List String → String
first_ip [] = ""
first_ip (ip ∷ ips) = ip

-- storiplist
unfoldable pub storage_ips : Go (List String)
storage_ips = do ips ← setting "storageiscsiips"; pure (split b',' ips)

abbrev pub Device : Type 0
Device = String × List String

module _ (env : Env) where
  -- The path of the device of a target, and the names of the devices that hold it.
  unfoldable pub find_device : String → String → List String → Go Device
  find_device iqn old ips = do
    files ← read_dir env "/dev/disk/by-path/"
    let path = first_path ("ip-" <> first_ip ips <> ":3260-iscsi-" <> iqn <> "-lun-") old files
    link ← read_link env path
    holders ← read_dir env ("/sys/block/" <> base_name "/" (or_empty link) <> "/holders/")
    pure (path, holders)
