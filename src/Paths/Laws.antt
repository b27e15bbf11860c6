-- ===== src/Paths/Laws.antt =====
-- Snapshot files and snapshot ids correspond; a volume id with no slash names a directory of its own.
use csi_driver_flexblock.Prelude.{
  String, ◌+◌, ◌≡◌, ◌≢◌, refl, ap, sym, ◌∙◌, true, false, [], ◌∷◌, arith, ◌=ₛ◌, eq_iff, Bool-cases,
  inl, inr, ◌↔◌,
}
use csi_driver_flexblock.Prelude.Text.{◌<>◌, split, size}
use Prim.Native.Char.{Char}
use csi_driver_flexblock.Paths.{
  has_char, ext, trim_suffix, get_snapshot_id, get_volume_path, snapshot_ext, data_root,
}

size-append : (s t : String) → size (s <> t) ≡ size s + size t
unfolding size ◌<>◌
size-append String.[] t = omega arith
size-append (String.◌∷◌ c s) t = omega (arith, size-append s t)

ext-append : (id : String) → ext (id <> snapshot_ext) ≡ snapshot_ext
unfolding ext ◌<>◌
ext-append String.[] = refl
ext-append (String.◌∷◌ c s) = rw (ext-append s)

longer : (c : Char) (s : String) → (String.◌∷◌ c (s <> snapshot_ext) =ₛ snapshot_ext) ≡ false
longer c s = elim (Bool-cases (String.◌∷◌ c (s <> snapshot_ext) =ₛ snapshot_ext)) [
  | inl same ↦
      absurd
        (unfold size in omega (arith, ap size ((eq_iff _ _).0 same), size-append s snapshot_ext))
  | inr differ ↦ differ
]

trim_suffix-append : (id : String) → trim_suffix snapshot_ext (id <> snapshot_ext) ≡ id
unfolding trim_suffix ◌<>◌
trim_suffix-append String.[] = refl
trim_suffix-append (String.◌∷◌ c s) =
    rw (longer c s) (ap (λ r. String.◌∷◌ c r) (trim_suffix-append s))

get_snapshot_id-append : (id : String) → get_snapshot_id (id <> snapshot_ext) ≡ (true, id)
unfolding get_snapshot_id
get_snapshot_id-append id = rw (ext-append id, trim_suffix-append id)

-- ext gives a suffix
ext-suffix :
    (file : String) → ext file ≡ snapshot_ext → trim_suffix snapshot_ext file <> snapshot_ext ≡ file
unfolding ext trim_suffix ◌<>◌
ext-suffix String.[] h = ground arith
ext-suffix (String.◌∷◌ c s) h = elim (Bool-cases (String.◌∷◌ c s =ₛ snapshot_ext)) [
  | inl same ↦ rw same (sym ((eq_iff _ _).0 same))
  | inr differ ↦ rw differ (
      ap (λ r. String.◌∷◌ c r)
        (ext-suffix s (ground (arith, eq_iff (ext s) "", eq_iff (String.◌∷◌ c s) snapshot_ext))))
]

get_snapshot_id_inv :
    (file id : String)
    → get_snapshot_id file ≡ (true, id)
    → (ext file ≡ snapshot_ext) × (trim_suffix snapshot_ext file ≡ id)
unfolding get_snapshot_id
get_snapshot_id_inv file id h = ground (arith, eq_iff (ext file) snapshot_ext)

-- A file is read as the snapshot `id` exactly when its name is `id` with `.snap` behind it.
pub get_snapshot_id_iff :
    (file id : String) → (get_snapshot_id file ≡ (true, id)) ↔ (file ≡ id <> snapshot_ext)
get_snapshot_id_iff file id = (
  λ h.
      let inv = get_snapshot_id_inv file id h in
      sym (ext-suffix file inv.0) ∙ ap (λ x. x <> snapshot_ext) inv.1,
  λ e. rw e (get_snapshot_id-append id),
)

split_no_slash : (s : String) → has_char b'/' s ≡ false → split b'/' s ≡ s ∷ []
unfolding has_char split
split_no_slash String.[] h = refl
split_no_slash (String.◌∷◌ c s) h = ground (arith, split_no_slash s)

append_nil : (s : String) → s <> "" ≡ s
unfolding ◌<>◌
append_nil String.[] = refl
append_nil (String.◌∷◌ c s) = ap (λ r. String.◌∷◌ c r) (append_nil s)

-- The directory of a volume lies directly under the data root if its id is a plain name: no
-- slash in it, not empty, and neither of the two dots.
pub get_volume_path_of_name :
    (id : String)
    → has_char b'/' id ≡ false
    → id ≢ ""
    → id ≢ "."
    → id ≢ ".."
    → get_volume_path id ≡ data_root <> "/" <> id
unfolding get_volume_path
get_volume_path_of_name id h a b c =
    rw (split_no_slash id h)
      (ground (arith, eq_iff id "", eq_iff id ".", eq_iff id "..", append_nil id))
