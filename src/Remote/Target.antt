-- ===== src/Remote/Target.antt =====
-- pkg/flexblock/flexblock.go: createTarget. Its loop polls the server until the volume is bound;
-- it runs on fuel here, and is `pending` where the fuel ran out.
use csi_driver_flexblock.Prelude.{
  ℕ, zero, suc, String, ◌&&◌, Option, none, some, List, [], ◌∷◌, ◌=ₛ◌, if◌then◌else◌,
}
use csi_driver_flexblock.Prelude.Text.{◌<>◌}
use csi_driver_flexblock.Prelude.Int.{ℤ, pos, negsuc, eq_ℤ}
use csi_driver_flexblock.Prelude.Decimal.{show_ℤ}
use csi_driver_flexblock.Env.{Env, TidInfo, LunInfo}
use csi_driver_flexblock.Go.{Go, pure, suspend, ◌>>=◌, ◌>>◌, maybe}
use csi_driver_flexblock.Sys.{sleep}
use csi_driver_flexblock.Http.{form, json, setting, endpoint, request, body_of_ok, exchange}

-- the id of the first target of the volume, 0 for none
unfoldable pub find_target : ℤ → String → String → List TidInfo → ℤ
find_target cluster ser_cluster name [] = pos 0
find_target cluster ser_cluster name (t ∷ ts) =
    if eq_ℤ cluster t.cluster_id && ser_cluster =ₛ t.ser_cluster_name && name =ₛ t.access_flag
    then t.id
    else find_target cluster ser_cluster name ts

-- the id of the first volume of that name that is bound, 0 for none
unfoldable pub find_lun : String → List LunInfo → ℤ
find_lun name [] = pos 0
find_lun name (l ∷ ls) =
    if name =ₛ l.volume_name && "TargetNewOK" =ₛ l.operating_status
    then l.volume_id
    else find_lun name ls

abbrev pub no_target : ℤ × ℤ
no_target = (negsuc 0, pos 0)

abbrev target_body : String → ℤ → ℤ → String
target_body name ser_cluster cluster =
    "{\"serviceName\":\""
    <> name
    <> "\",\"description\":\"\",\"accessFlag\":\""
    <> name
    <> "\",\"serClusterIdList\":["
    <> show_ℤ ser_cluster
    <> "],\"clusterId\":"
    <> show_ℤ cluster
    <> "}"

abbrev access_body : String
access_body =
    "{formerAcl:false,formerIp:[],formerName:[],laterAcl:true,laterIp:[],laterName:[],readonly:0,timeout:6}"

module _ (env : Env) where
  -- One round of the loop: `none` is an error, 0 says that the volume is not bound yet.
  unfoldable pub poll_lun : String → String → ℤ → String → Go (Option ℤ)
  poll_lun url token tid name = do
    sleep 10
    resp ←
        exchange env (
          request "GET" (url <> "/mng/serTarget/" <> show_ℤ tid <> "/bindVol") json (some token) "")
    pure (elim (body_of_ok resp) [
      | none ↦ none
      | some body ↦ some (find_lun name (env.unmarshal_luns body))
    ])

  -- The loop: `none` is an error, and else the bound volume.
  unfoldable pub await_lun : ℕ → String → String → ℤ → String → Go (Option ℤ)
  await_lun zero url token tid name = suspend
  await_lun (suc fuel) url token tid name = do
    answer ← poll_lun url token tid name
    maybe answer (pure none)
        λ lun. if eq_ℤ lun (pos 0) then await_lun fuel url token tid name else pure (some lun)

  -- behind the loop
  unfoldable pub open_access : String → String → ℤ → Option ℤ → Go (ℤ × ℤ)
  open_access url token tid none = pure no_target
  open_access url token tid (some lun) = do
    resp ← exchange env (
        request "POST" (url <> "/mng/volume/iscsiService/" <> show_ℤ tid <> "/service") json
          (some token) access_body)
    pure (elim resp [ none ↦ no_target | some _ ↦ (tid, lun) ])

  -- binding the volume to the target, and waiting for it
  unfoldable pub bind_target : ℕ → String → String → ℤ → String → ℤ → Go (ℤ × ℤ)
  bind_target fuel url token tid name vid = do
    bound ← exchange env (
        request "POST" (url <> "/mng/serTarget/" <> show_ℤ tid <> "/bind?serviceProto=iscsi") json
          (some token) ("[" <> show_ℤ vid <> "]"))
    maybe bound (pure no_target)
        λ _. do lun ← await_lun fuel url token tid name; open_access url token tid lun

  -- createTarget, after the target is created
  unfoldable pub lookup_target : ℕ → String → String → ℤ → String → ℤ → Go (ℤ × ℤ)
  lookup_target fuel url token cluster name vid = do
    listed ← exchange env (
        request "GET"
          (url
            <> "/mng/volume/iscsiService/serviceGroup?options=%7B%22serviceProto%22:%22iscsi%22%7D")
          form (some token) "")
    ser_cluster ← setting "storagemngsercluster"
    maybe (body_of_ok listed) (pure no_target) λ body.
        bind_target fuel url token
          (find_target cluster ser_cluster name (env.unmarshal_targets body)) name vid

  -- createTarget: the target and the bound volume, (-1, 0) where a request fails. Its error is
  -- always nil.
  unfoldable pub create_target : ℕ → ℤ → ℤ → String → ℤ → Go (ℤ × ℤ)
  create_target fuel cluster ser_cluster name vid = do
    url ← endpoint
    token ← setting "mngtoken"
    created ← exchange env (
        request "POST" (url <> "/mng/serTarget") json (some token)
          (target_body name ser_cluster cluster))
    maybe created (pure no_target) λ _. lookup_target fuel url token cluster name vid
