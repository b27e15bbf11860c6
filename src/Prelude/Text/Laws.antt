-- ===== src/Prelude/Text/Laws.antt =====
-- Joined texts, and what is found in them.
use mathlib.Core.Path.{◌≡◌, refl, ap}
use Prim.Native.String.{String}
use Prim.Native.Char.{Char, code}
use mathlib.Core.Bool.{true}
use mathlib.Core.Option.{Option, none, some}
use csi_driver_flexblock.Prelude.Tests.{◌==◌, is_some, ==_iff}
use csi_driver_flexblock.Prelude.Text.{◌<>◌, strip_prefix, cut, contains, prepend, here_or}

pub append_assoc : (a b c : String) → (a <> b) <> c ≡ a <> b <> c
unfolding ◌<>◌
append_assoc String.[] b c = refl
append_assoc (String.◌∷◌ x a) b c = ap (λ s. String.◌∷◌ x s) (append_assoc a b c)

same_code : (c : Char) → (code c == code c) ≡ true
same_code c = (==_iff (code c) (code c)).1 refl

strip_prefix-append : (p s : String) → strip_prefix p (p <> s) ≡ some s
unfolding strip_prefix ◌<>◌
strip_prefix-append String.[] s = refl
strip_prefix-append (String.◌∷◌ c p) s = rw (same_code c) (strip_prefix-append p s)

cut-here : (sep s r : String) → strip_prefix sep s ≡ some r → is_some (cut sep s) ≡ true
unfolding cut
cut-here sep String.[] r h = rw h refl
cut-here sep (String.◌∷◌ c s) r h = rw h refl

later :
    (o : Option String) (c : Char) (l : Option (String × String))
    → is_some l ≡ true
    → is_some (here_or o (prepend c l)) ≡ true
later none c none h = h
later none c (some p) h = refl
later (some r) c l h = refl

-- A text contains what stands between two others in it.
pub contains-inside : (a sub b : String) → contains (a <> sub <> b) sub ≡ true
unfolding contains ◌<>◌ cut
contains-inside String.[] sub b = cut-here sub (sub <> b) b (strip_prefix-append sub b)
contains-inside (String.◌∷◌ c a) sub b =
    later _ c (cut sub (a <> sub <> b)) (contains-inside a sub b)
