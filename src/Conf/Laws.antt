-- ===== src/Conf/Laws.antt =====
-- What the configuration file says of a key.
use csi_driver_flexblock.Prelude.Text.{trim_space, cut}
use csi_driver_flexblock.Volume.{lookup-insert, lookup}
use csi_driver_flexblock.Conf.{add_setting, read_conf}
use csi_driver_flexblock.Prelude.{
  false, true, inr, ap, inl, ◌∙◌, Bool-cases, Bool, ◌=ₛ◌, if◌then◌else◌, some, none, ◌≡◌, List,
  Option, String, ◌∷◌, [], refl,
}

-- the setting of a line, if it has one
abbrev pub setting_of : Option (String × String) → Option (String × String)
setting_of none = none
setting_of (some (k, value)) = if k =ₛ "" then none else some (k, value)

abbrev pub value_for : String → Option (String × String) → Option String
value_for key none = none
value_for key (some (k, value)) = if k =ₛ key then some value else none

abbrev pub or_else : Option String → Option String → Option String
or_else none o = o
or_else (some v) o = some v

-- the value of the last line that sets a key
unfoldable pub last_setting : String → List String → Option String
last_setting key [] = none
last_setting key (l ∷ ls) =
    or_else (last_setting key ls) (value_for key (setting_of (cut "=" (trim_space l))))

or_else_assoc : (a b c : Option String) → or_else a (or_else b c) ≡ or_else (or_else a b) c
or_else_assoc none b c = refl
or_else_assoc (some x) b c = refl

lookup-add_setting :
    (key : String) (o : Option (String × String)) (conf : List (String × String))
    → lookup key (add_setting o conf) ≡ or_else (value_for key (setting_of o)) (lookup key conf)
lookup-add_setting key none conf = refl
lookup-add_setting key (some (k, value)) conf = elim (Bool-cases (k =ₛ "")) [
  | inl empty ↦ rw empty refl
  | inr full ↦ rw full (lookup-insert k key value conf ∙ chosen (k =ₛ key) value (lookup key conf))
]
  where
    chosen :
        (b : Bool) (v : String) (o : Option String)
        → (if b then some v else o) ≡ or_else (if b then some v else none) o
    chosen true v o = refl
    chosen false v o = refl

-- Behind the reading of lines, a key has the value of the last line that is `key=value`, the spaces around the
-- line taken off, and the value that it had before if there is no such line.
pub lookup-read_conf :
    (key : String) (conf : List (String × String)) (lines : List String)
    → lookup key (read_conf conf lines) ≡ or_else (last_setting key lines) (lookup key conf)
unfolding read_conf last_setting
lookup-read_conf key conf [] = refl
lookup-read_conf key conf (l ∷ ls) =
    lookup-read_conf key (add_setting (cut "=" (trim_space l)) conf) ls
    ∙ ap (or_else (last_setting key ls)) (lookup-add_setting key (cut "=" (trim_space l)) conf)
    ∙ or_else_assoc (last_setting key ls) _ _
