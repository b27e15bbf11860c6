-- ===== src/Remote/Volumes.antt =====
-- pkg/flexblock/flexblock.go: createVol, getAndesVol, updateVol, deleteVol.
use csi_driver_flexblock.Prelude.{
  String, Bool, ◌&&◌, Option, none, some, List, [], ◌∷◌, ◌=ₛ◌, if◌then◌else◌,
}
use csi_driver_flexblock.Prelude.Text.{◌<>◌}
use csi_driver_flexblock.Prelude.Int.{ℤ, pos, negsuc, eq_ℤ}
use csi_driver_flexblock.Prelude.Decimal.{show_ℤ}
use csi_driver_flexblock.Env.{Env, VolInfo}
use csi_driver_flexblock.Go.{maybe, Go, pure, crash, ◌>>=◌}
use csi_driver_flexblock.Sys.{send}
use csi_driver_flexblock.Http.{form, json, setting, endpoint, request, body_of_ok, exchange}

abbrev pub is_volume : ℤ → ℤ → String → VolInfo → Bool
is_volume cluster pool name v =
    eq_ℤ cluster v.cluster_id && eq_ℤ pool v.pool_id && name =ₛ v.volume_name

-- the loop of createVol, which returns at the first volume that fits
unfoldable pub first_volume : ℤ → ℤ → String → List VolInfo → ℤ × ℤ
first_volume cluster pool name [] = (negsuc 0, pos 0)
first_volume cluster pool name (v ∷ vs) =
    if is_volume cluster pool name v
    then (v.volume_id, v.target_id)
    else first_volume cluster pool name vs

-- the loop of getAndesVol, which goes on: the last volume that fits, and zeros for none
unfoldable pub last_volume : ℤ → ℤ → String → ℤ × ℤ → List VolInfo → ℤ × ℤ
last_volume cluster pool name found [] = found
last_volume cluster pool name found (v ∷ vs) =
    last_volume cluster pool name
      (if is_volume cluster pool name v then (v.volume_id, v.target_id) else found) vs

abbrev pub no_volume : ℤ × ℤ
no_volume = (negsuc 0, pos 0)

abbrev volume_body : ℤ → ℤ → String → ℤ → String
volume_body cluster pool name size =
    "{\"clusterId\":"
    <> show_ℤ cluster
    <> ",\"poolId\":"
    <> show_ℤ pool
    <> ",\"volumeName\":\""
    <> name
    <> "\",\"blockThin\":1,\"capacityTotal\":"
    <> show_ℤ size
    <> ",\"redMode\":\"duplication\",\"duplicationNum\":2}"

abbrev resize_body : ℤ → ℤ → String
resize_body vid size =
    "{\"volumeId\":"
    <> show_ℤ vid
    <> ",\"snapshot\":0,\"alertPercent\":0,\"description\": \"\",\"capacityTotal\":"
    <> show_ℤ size
    <> ",\"redMode\":\"duplication\",\"duplicationNum\":2,\"unitSelect\":\"2\",\"blockThin\":1}"

module _ (env : Env) where
  unfoldable pub volumes_listed : String → String → Go (Option (List VolInfo))
  volumes_listed url token = do
    resp ← exchange env (request "GET" (url <> "/mng/blockVolume") form (some token) "")
    pure (elim (body_of_ok resp) [ none ↦ none | some body ↦ some (env.unmarshal_volumes body) ])

  -- createVol: the id and the target of the volume, (-1, 0) where a request fails
  unfoldable pub create_vol : ℤ → ℤ → String → ℤ → Go (ℤ × ℤ)
  create_vol cluster pool name size = do
    url ← endpoint
    token ← setting "mngtoken"
    created ← exchange env (
        request "POST" (url <> "/mng/blockVolume") json (some token)
          (volume_body cluster pool name size))
    maybe created (pure no_volume) λ _. do
      vols ← volumes_listed url token
      pure (elim vols [ none ↦ no_volume | some vs ↦ first_volume cluster pool name vs ])

  -- getAndesVol
  unfoldable pub get_andes_vol : ℤ → ℤ → String → Go (ℤ × ℤ)
  get_andes_vol cluster pool name = do
    url ← endpoint
    token ← setting "mngtoken"
    vols ← volumes_listed url token
    pure
        (elim vols [ none ↦ no_volume | some vs ↦ last_volume cluster pool name (pos 0, pos 0) vs ])

  -- updateVol: a URL that http.NewRequest refuses gives a nil request, which is dereferenced
  unfoldable pub update_vol : ℤ → ℤ → String → ℤ → Go (ℤ × ℤ)
  update_vol cluster pool name size = do
    vol ← get_andes_vol cluster pool name
    url ← endpoint
    token ← setting "mngtoken"
    if env.url_is_valid (url <> "/mng/blockVolume/" <> show_ℤ vol.0)
        then (send env (
              request "PUT" (url <> "/mng/blockVolume/" <> show_ℤ vol.0) json (some token)
                (resize_body vol.0 size))
            >>= λ _. pure vol)
        else crash

  -- the requests of deleteVol, in turn: the first that fails ends it
  unfoldable pub delete_all : String → List String → Go (Unit {0})
  delete_all token [] = pure tt
  delete_all token (url ∷ urls) = do
    resp ← exchange env (request "DELETE" url json (some token) "")
    maybe resp (pure tt) λ _. delete_all token urls

  -- deleteVol: unbind the volume, delete the target, delete the volume. Its error is always nil.
  unfoldable pub delete_vol : ℤ → ℤ → String → Go (Unit {0})
  delete_vol cluster pool name = do
    vol ← get_andes_vol cluster pool name
    url ← endpoint
    token ← setting "mngtoken"
    delete_all token (
        (url <> "/mng/serTarget/" <> show_ℤ vol.1 <> "/unbind/" <> show_ℤ vol.0)
        ∷ (url <> "/mng/serTarget/" <> show_ℤ vol.1)
        ∷ (url <> "/mng/blockVolume/" <> show_ℤ vol.0)
        ∷ [])
