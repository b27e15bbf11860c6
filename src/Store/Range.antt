-- ===== src/Store/Range.antt =====
-- Lookups by name over a map, whose order of iteration is not specified: what they find is in the map,
-- and they find something where the map has it.
use csi_driver_flexblock.Volume.{insert, Volumes, Volume, erase}
use csi_driver_flexblock.Env.{History, Env}
use csi_driver_flexblock.Store.{find_volume_name}
use csi_driver_flexblock.Prelude.{
  ◌⊎◌, ap, sym, ◌∙◌, false≢true, inr, subst, inl, ◌=ₛ◌, eq_iff, Option-cases, Bool-cases, arith,
  ◌≢◌, String, [], ◌∷◌, none, some, ◌≡◌, refl,
}

abbrev pub AllVolumes : (Volume → Type 0) → Volumes → Type 0
AllVolumes P [] = Unit
AllVolumes P ((id, vol) ∷ vs) = P vol × AllVolumes P vs

-- The volume is one of the map's.
abbrev pub IsIn : Volume → Volumes → Type 0
IsIn vol [] = ⊥
IsIn vol ((id, w) ∷ vs) = (w ≡ vol) ⊎ IsIn vol vs

-- A range over a map visits its entries, and no others, in some order.
pub record RangesOver (env : Env) : Type 1 where
  pub visits :
      (P : Volume → Type 0) (h : History) (vs : Volumes)
      → AllVolumes P (env.range_volumes h vs)
      → AllVolumes P vs
  pub only :
      (P : Volume → Type 0) (h : History) (vs : Volumes)
      → AllVolumes P vs
      → AllVolumes P (env.range_volumes h vs)

abbrev pub HasOtherName : String → Volume → Type 0
HasOtherName name vol = vol.vol_name ≢ name

find-none :
    (name : String) (vs : Volumes)
    → AllVolumes (HasOtherName name) vs
    → find_volume_name name vs ≡ none
unfolding find_volume_name
find-none name [] all = refl
find-none name ((id, vol) ∷ vs) (other, all) =
    ground (arith, eq_iff vol.vol_name name, other, find-none name vs all)

none-find :
    (name : String) (vs : Volumes)
    → find_volume_name name vs ≡ none
    → AllVolumes (HasOtherName name) vs
unfolding find_volume_name
none-find name [] h = tt
none-find name ((id, vol) ∷ vs) h = elim (Bool-cases (vol.vol_name =ₛ name)) [
  | inl same ↦ absurd (some_ne_none vol (rw same at h))
  | inr differ ↦
      (λ e. false≢true (sym differ ∙ (eq_iff _ _).1 e), none-find name vs (rw differ at h))
]
  where
    some_ne_none : (v : Volume) → some v ≡ none → ⊥
    some_ne_none v e = cc

-- Whatever holds of each volume of that name holds of the one found.
find-some :
    (P : Volume → Type 0) (name : String) (vs : Volumes) (vol : Volume)
    → AllVolumes (λ v. v.vol_name ≡ name → P v) vs
    → find_volume_name name vs ≡ some vol
    → P vol
unfolding find_volume_name
find-some P name [] vol all h = cc
find-some P name ((id, w) ∷ vs) vol (p, all) h = elim (Bool-cases (w.vol_name =ₛ name)) [
  | inl same ↦ subst P (some_eq w vol (rw same at h)) (p ((eq_iff _ _).0 same))
  | inr differ ↦ find-some P name vs vol all (rw differ at h)
]
  where
    some_eq : (a b : Volume) → some a ≡ some b → a ≡ b
    some_eq a b e = cc

AllVolumes-erase :
    (P : Volume → Type 0) (id : String) (vs : Volumes)
    → AllVolumes P vs
    → AllVolumes P (erase id vs)
unfolding erase
AllVolumes-erase P id [] all = tt
AllVolumes-erase P id ((j, w) ∷ vs) (p, all) = elim (Bool-cases (j =ₛ id)) [
  | inl same ↦ rw same (AllVolumes-erase P id vs all)
  | inr differ ↦ rw differ (p, AllVolumes-erase P id vs all)
]

AllVolumes-mono :
    (P Q : Volume → Type 0) (vs : Volumes)
    → ((v : Volume) → P v → Q v)
    → AllVolumes P vs
    → AllVolumes Q vs
AllVolumes-mono P Q [] f all = tt
AllVolumes-mono P Q ((j, w) ∷ vs) f (p, all) = (f w p, AllVolumes-mono P Q vs f all)

all-IsIn : (vs : Volumes) → AllVolumes (λ v. IsIn v vs) vs
all-IsIn [] = tt
all-IsIn ((id, w) ∷ vs) = (
  inl refl,
  AllVolumes-mono (λ v. IsIn v vs) (λ v. IsIn v ((id, w) ∷ vs)) vs (λ v there. inr there)
      (all-IsIn vs),
)

module _ (env : Env) (ranges : RangesOver env) (h : History) (name : String) where
  -- What a lookup by name finds in a range over a map has that name, and is in the map.
  pub range-find_some :
      (vs : Volumes) (vol : Volume)
      → find_volume_name name (env.range_volumes h vs) ≡ some vol
      → IsIn vol vs × (vol.vol_name ≡ name)
  range-find_some vs vol found =
      find-some (λ v. IsIn v vs × (v.vol_name ≡ name)) name (env.range_volumes h vs) vol
        (ranges.only (λ v. v.vol_name ≡ name → IsIn v vs × (v.vol_name ≡ name)) h vs
          (AllVolumes-mono (λ v. IsIn v vs)
            (λ v. v.vol_name ≡ name → IsIn v vs × (v.vol_name ≡ name)) vs
            (λ v there named. (there, named)) (all-IsIn vs)))
        found

  -- Where it finds none, the map has none of that name.
  pub range-find_none :
      (vs : Volumes)
      → find_volume_name name (env.range_volumes h vs) ≡ none
      → find_volume_name name vs ≡ none
  range-find_none vs nothing =
      find-none name vs (ranges.visits (HasOtherName name) h vs (none-find name _ nothing))

  pub find-range_none :
      (vs : Volumes)
      → find_volume_name name vs ≡ none
      → find_volume_name name (env.range_volumes h vs) ≡ none
  find-range_none vs absent =
      find-none name _ (ranges.only (HasOtherName name) h vs (none-find name vs absent))

  -- If a range over a map visits its entries and no others, then a volume with a name that no volume
  -- of the map has, put in under any id, is what the lookup by that name finds, in whatever order the
  -- map is walked.
  pub find-range_insert :
      (id : String) (vol : Volume) (vs : Volumes)
      → find_volume_name name vs ≡ none
      → vol.vol_name ≡ name
      → find_volume_name name (env.range_volumes h (insert id vol vs)) ≡ some vol
  unfolding insert
  find-range_insert id vol vs absent named =
      elim (Option-cases (find_volume_name name (env.range_volumes h ((id, vol) ∷ erase id vs)))) [
        | inl nothing ↦ absurd (
            (ranges.visits (HasOtherName name) h ((id, vol) ∷ erase id vs)
                (none-find name _ nothing)).0
              named)
        | inr (w, found) ↦
            found
            ∙ ap some (
                find-some (λ v. v ≡ vol) name _ w
                  (ranges.only (λ v. v.vol_name ≡ name → v ≡ vol) h ((id, vol) ∷ erase id vs)
                    (
                      λ _. refl,
                      AllVolumes-mono (HasOtherName name) (λ v. v.vol_name ≡ name → v ≡ vol) _
                          (λ v other same. absurd (other same))
                          (AllVolumes-erase (HasOtherName name) id vs (none-find name vs absent)),
                    ))
                  found)
      ]
