-- ===== src/Remote/Frame.antt =====
-- No request to the management server changes the maps of volumes and snapshots.
use csi_driver_flexblock.Prelude.{ℕ, zero, suc, String, refl, Option, none, some, List, [], ◌∷◌}
use csi_driver_flexblock.Prelude.Int.{ℤ}
use csi_driver_flexblock.Env.{Env, ClusterInfo, Response}
use csi_driver_flexblock.Go.{Go, modify}
use csi_driver_flexblock.Go.Frame.{Frame-if, Frame-pure, Frame-maybe, Frame-bind, Frame}
use csi_driver_flexblock.Http.Frame.{Frame-exchange, frame_http}
use csi_driver_flexblock.Remote.Cluster.{
  Search, found, missing, gave_up, save_token, search_pools, search_ser_clusters, ids_of_pools,
  choose_ids, with_login, remote_ids, get_cluster_id,
}
use csi_driver_flexblock.Remote.Volumes.{
  volumes_listed, create_vol, get_andes_vol, update_vol, delete_all, delete_vol,
}
use csi_driver_flexblock.Remote.Target.{
  poll_lun, await_lun, open_access, bind_target, lookup_target, create_target,
}

Frame-save_token : (token : String) → Frame (save_token token)
unfolding save_token modify
Frame-save_token token = record { volumes = λ s. refl; snapshots = λ s. refl; written = λ s. refl }

module _ (env : Env) where
  Frame-search_pools :
      (url token name : String) (cs : List ClusterInfo) → Frame (search_pools env url token name cs)
  unfolding search_pools
  Frame-search_pools url token name [] = search frame_http
  Frame-search_pools url token name (c ∷ cs) = Frame-bind _ _ (Frame-exchange env _) λ resp.
      Frame-maybe _ _ _ (Frame-pure _)
        λ body. Frame-maybe _ _ _ (Frame-search_pools url token name cs) (λ a. Frame-pure _)

  Frame-search_ser_clusters :
      (url token name : String) (cs : List ClusterInfo)
      → Frame (search_ser_clusters env url token name cs)
  unfolding search_ser_clusters
  Frame-search_ser_clusters url token name [] = search frame_http
  Frame-search_ser_clusters url token name (c ∷ cs) = Frame-bind _ _ (Frame-exchange env _) λ resp.
      Frame-maybe _ _ _ (Frame-pure _)
        λ body. Frame-maybe _ _ _ (Frame-search_ser_clusters url token name cs) (λ a. Frame-pure _)

Frame-ids_of_pools :
    (p : Search (ℤ × ℤ)) (next : Go (Search ℤ)) → Frame next → Frame (ids_of_pools p next)
unfolding ids_of_pools
Frame-ids_of_pools gave_up next f = search frame_http
Frame-ids_of_pools missing next f = search frame_http
Frame-ids_of_pools (found (cluster, pool)) next f = search frame_http

module _ (env : Env) where
  Frame-choose_ids :
      (url token : String) (body : Option String) → Frame (choose_ids env url token body)
  unfolding choose_ids
  Frame-choose_ids url token none = search frame_http
  Frame-choose_ids url token (some body) =
      search (frame_http, Frame-search_pools, Frame-search_ser_clusters, Frame-ids_of_pools)

  Frame-with_login : (url : String) (resp : Option Response) → Frame (with_login env url resp)
  unfolding with_login
  Frame-with_login url none = search frame_http
  Frame-with_login url (some resp) = search (frame_http, Frame-choose_ids, Frame-save_token)

  Frame-remote_ids : Frame (remote_ids env)
  unfolding remote_ids
  Frame-remote_ids = search (frame_http, Frame-with_login)

  pub Frame-get_cluster_id : Frame (get_cluster_id env)
  unfolding get_cluster_id
  Frame-get_cluster_id = search (frame_http, Frame-remote_ids)

  Frame-volumes_listed : (url token : String) → Frame (volumes_listed env url token)
  unfolding volumes_listed
  Frame-volumes_listed url token = search frame_http

  pub Frame-create_vol :
      (cluster pool : ℤ) (name : String) (size : ℤ) → Frame (create_vol env cluster pool name size)
  unfolding create_vol
  Frame-create_vol cluster pool name size = search (frame_http, Frame-volumes_listed) depth 8

  Frame-get_andes_vol :
      (cluster pool : ℤ) (name : String) → Frame (get_andes_vol env cluster pool name)
  unfolding get_andes_vol
  Frame-get_andes_vol cluster pool name = search (frame_http, Frame-volumes_listed) depth 8

  pub Frame-update_vol :
      (cluster pool : ℤ) (name : String) (size : ℤ) → Frame (update_vol env cluster pool name size)
  unfolding update_vol
  Frame-update_vol cluster pool name size = search (frame_http, Frame-get_andes_vol) depth 8

  Frame-delete_all : (token : String) (urls : List String) → Frame (delete_all env token urls)
  unfolding delete_all
  Frame-delete_all token [] = search frame_http
  Frame-delete_all token (url ∷ urls) =
      Frame-bind _ _ (Frame-exchange env _)
        λ resp. Frame-maybe _ _ _ (Frame-pure _) λ _. Frame-delete_all token urls

  pub Frame-delete_vol :
      (cluster pool : ℤ) (name : String) → Frame (delete_vol env cluster pool name)
  unfolding delete_vol
  Frame-delete_vol cluster pool name =
      search (frame_http, Frame-get_andes_vol, Frame-delete_all) depth 8

  Frame-poll_lun :
      (url token : String) (tid : ℤ) (name : String) → Frame (poll_lun env url token tid name)
  unfolding poll_lun
  Frame-poll_lun url token tid name = search frame_http

  Frame-await_lun :
      (fuel : ℕ) (url token : String) (tid : ℤ) (name : String)
      → Frame (await_lun env fuel url token tid name)
  unfolding await_lun
  Frame-await_lun zero url token tid name = search frame_http
  Frame-await_lun (suc fuel) url token tid name =
      Frame-bind _ _ (Frame-poll_lun url token tid name) λ answer.
        Frame-maybe _ _ _ (Frame-pure _)
          λ lun. Frame-if _ _ _ (Frame-await_lun fuel url token tid name) (Frame-pure _)

  Frame-open_access :
      (url token : String) (tid : ℤ) (lun : Option ℤ) → Frame (open_access env url token tid lun)
  unfolding open_access
  Frame-open_access url token tid none = search frame_http
  Frame-open_access url token tid (some lun) = search frame_http

  Frame-bind_target :
      (fuel : ℕ) (url token : String) (tid : ℤ) (name : String) (vid : ℤ)
      → Frame (bind_target env fuel url token tid name vid)
  unfolding bind_target
  Frame-bind_target fuel url token tid name vid =
      search (frame_http, Frame-await_lun, Frame-open_access) depth 8

  Frame-lookup_target :
      (fuel : ℕ) (url token : String) (cluster : ℤ) (name : String) (vid : ℤ)
      → Frame (lookup_target env fuel url token cluster name vid)
  unfolding lookup_target
  Frame-lookup_target fuel url token cluster name vid =
      search (frame_http, Frame-bind_target) depth 8

  pub Frame-create_target :
      (fuel : ℕ) (cluster ser_cluster : ℤ) (name : String) (vid : ℤ)
      → Frame (create_target env fuel cluster ser_cluster name vid)
  unfolding create_target
  Frame-create_target fuel cluster ser_cluster name vid =
      search (frame_http, Frame-lookup_target) depth 8

pub ruleset frame_remote = (
  frame_http, Frame-get_cluster_id, Frame-create_vol, Frame-update_vol, Frame-delete_vol,
  Frame-create_target,
)
