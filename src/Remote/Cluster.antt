-- ===== src/Remote/Cluster.antt =====
-- pkg/flexblock/flexblock.go: getClusterID.
use csi_driver_flexblock.Prelude.{
  String, ◌||◌, Option, none, some, List, [], ◌∷◌, ◌=ₛ◌, if◌then◌else◌,
}
use csi_driver_flexblock.Prelude.Text.{◌<>◌}
use csi_driver_flexblock.Prelude.Int.{ℤ, pos, negsuc}
use csi_driver_flexblock.Prelude.Decimal.{show_ℤ}
use csi_driver_flexblock.Volume.{insert}
use csi_driver_flexblock.Env.{Env, ClusterInfo, PoolInfo, SerClusterInfo, Response}
use csi_driver_flexblock.Go.{maybe, Go, pure, modify, ◌>>=◌, ◌>>◌}
use csi_driver_flexblock.Http.{form, setting, endpoint, request, body_of_ok, exchange}

abbrev pub Ids : Type 0
Ids = ℤ × ℤ × ℤ

abbrev pub no_ids : Ids
no_ids = (negsuc 0, negsuc 0, negsuc 0)

-- A loop that asks the server: it breaks with a value, ends without one, or gives up on an error.
pub data Search (A : Type 0) : Type 0 where
  found : A → Search A
  missing : Search A
  gave_up : Search A

unfoldable pub find_pool : String → List PoolInfo → Option ℤ
find_pool name [] = none
find_pool name (p ∷ ps) = if p.pool_name =ₛ name then some p.block_pool_id else find_pool name ps

unfoldable pub find_ser_cluster : String → List SerClusterInfo → Option ℤ
find_ser_cluster name [] = none
find_ser_cluster name (p ∷ ps) =
    if p.cluster_name =ₛ name then some p.ser_cluster_id else find_ser_cluster name ps

-- what is returned behind the first loop, whose result is given, and the second
unfoldable pub ids_of_pools : Search (ℤ × ℤ) → Go (Search ℤ) → Go Ids
ids_of_pools gave_up next = pure no_ids
ids_of_pools missing next = do
  ser ← next
  pure (elim ser [
    | found id ↦ (negsuc 0, negsuc 0, id)
    | missing ↦ (negsuc 0, negsuc 0, negsuc 0)
    | gave_up ↦ no_ids
  ])
ids_of_pools (found (cluster, pool)) next = do
  ser ← next
  pure (elim ser [
    | found id ↦ (cluster, pool, id)
    | missing ↦ (cluster, pool, negsuc 0)
    | gave_up ↦ no_ids
  ])

-- confinfo["mngtoken"] = mngtoken
unfoldable pub save_token : String → Go (Unit {0})
save_token token = modify (λ s. record s { confinfo = insert "mngtoken" token s.confinfo })

module _ (env : Env) where
  -- the first loop: a cluster with a pool of that name
  unfoldable pub search_pools : String → String → String → List ClusterInfo → Go (Search (ℤ × ℤ))
  search_pools url token name [] = pure missing
  search_pools url token name (c ∷ cs) = do
    resp ← exchange env (
        request "GET"
          (url <> "/mng/neuStorCluster/" <> show_ℤ c.cluster_id <> "/blockPool?infoType=list") form
          (some token) "")
    maybe (body_of_ok resp) (pure gave_up) λ body.
        maybe (find_pool name (env.unmarshal_pools body)) (search_pools url token name cs)
          λ pool. pure (found (c.cluster_id, pool))

  -- the second loop: a service cluster of that name
  unfoldable pub search_ser_clusters : String → String → String → List ClusterInfo → Go (Search ℤ)
  search_ser_clusters url token name [] = pure missing
  search_ser_clusters url token name (c ∷ cs) = do
    resp ← exchange env (
        request "GET"
          (url
            <> "/mng/sercluster?infoType=list&clusterType=2&storClusterId="
            <> show_ℤ c.cluster_id)
          form (some token) "")
    maybe (body_of_ok resp) (pure gave_up) λ body.
        maybe (find_ser_cluster name (env.unmarshal_ser_clusters body))
          (search_ser_clusters url token name cs) λ id. pure (found id)

  -- behind the list of clusters
  unfoldable pub choose_ids : String → String → Option String → Go Ids
  choose_ids url token none = pure no_ids
  choose_ids url token (some body) = do
    pool_name ← setting "storagemngpoolname"
    ser_name ← setting "storagemngsercluster"
    pools ← search_pools url token pool_name (env.unmarshal_clusters body)
    ids_of_pools pools (search_ser_clusters url token ser_name (env.unmarshal_clusters body))

  -- behind the login
  unfoldable pub with_login : String → Option Response → Go Ids
  with_login url none = pure no_ids
  with_login url (some resp) = do
    save_token resp.auth_token
    clusters ← exchange env (
        request "GET" (url <> "/mng/neuStorCluster?infoType=list&serClusterId=0") form
          (some resp.auth_token) "")
    choose_ids url resp.auth_token (body_of_ok clusters)

  unfoldable pub remote_ids : Go Ids
  remote_ids = do
    url ← endpoint
    username ← setting "storagemngusername"
    password ← setting "storagemngpassword"
    resp ← exchange env (
        request "POST" (url <> "/mng/j_spring_security_check_kxapi") form none (
          "password="
          <> env.query_escape (env.md5_hex (env.md5_hex password))
          <> "&username="
          <> env.query_escape username))
    with_login url resp

  -- getClusterID: the storage cluster, the pool and the service cluster. Its error is always nil.
  unfoldable pub get_cluster_id : Go Ids
  get_cluster_id = do
    mode ← setting "csimod"
    if (mode =ₛ "") || (mode =ₛ "local") then pure (pos 0, pos 0, pos 0) else remote_ids
