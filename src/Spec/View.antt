-- ===== src/Spec/View.antt =====
-- The view of a map of volumes, and the changes of a map as changes of its view.
use csi_driver_flexblock.Spec.{update, Info, View}
use csi_driver_flexblock.Volume.{
  lookup-erase, lookup-insert, insert, lookup, erase, Volumes, Volume,
}
use csi_driver_flexblock.Prelude.{
  inr, inl, ◌=ₛ◌, ◌∙◌, false, Bool-cases, ap, none, fun_ext, true, ◌≡◌, some, if◌then◌else◌, Option,
  Bool, String, refl,
}

abbrev pub info : Volume → Info
info vol = record {
  name = vol.vol_name;
  size = vol.vol_size;
  access = vol.vol_access_type;
  ephemeral = vol.ephemeral;
}

abbrev map_info : Option Volume → Option Info
map_info none = none
map_info (some vol) = some (info vol)

unfoldable pub view : Volumes → View
view vs id = map_info (lookup id vs)

map_info-if :
    (b : Bool) (x y : Option Volume)
    → map_info (if b then x else y) ≡ (if b then map_info x else map_info y)
map_info-if true x y = refl
map_info-if false x y = refl

pub view-insert :
    (id : String) (vol : Volume) (vs : Volumes)
    → view (insert id vol vs) ≡ update (view vs) id (some (info vol))
unfolding view
view-insert id vol vs =
    fun_ext λ j. ap map_info (lookup-insert id j vol vs) ∙ map_info-if (id =ₛ j) _ _

pub view-erase : (id : String) (vs : Volumes) → view (erase id vs) ≡ update (view vs) id none
unfolding view
view-erase id vs = fun_ext λ j. ap map_info (lookup-erase id j vs) ∙ map_info-if (id =ₛ j) _ _

pub view-found :
    (id : String) (vs : Volumes) (vol : Volume)
    → lookup id vs ≡ some vol
    → view vs id ≡ some (info vol)
unfolding view
view-found id vs vol found = ap map_info found

-- The last of two changes at one id is the one that is seen.
pub update-update :
    (v : View) (id : String) (a b : Option Info) → update (update v id a) id b ≡ update v id b
update-update v id a b =
    fun_ext
      λ j. elim (Bool-cases (id =ₛ j)) [ inl same ↦ rw same refl | inr differ ↦ rw differ refl ]
