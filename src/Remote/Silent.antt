-- ===== src/Remote/Silent.antt =====
-- pkg/flexblock/flexblock.go: getClusterID and deleteVol while the management server does not answer.
use csi_driver_flexblock.Prelude.Int.{ℤ}
use csi_driver_flexblock.Go.Returns.{
  bind-ok, Returns-pure, Returns-maybe, Returns-bind, returns_rules, Returns,
}
use csi_driver_flexblock.Sys.{send}
use csi_driver_flexblock.Go.{gets, ok, ◌>>=◌, pure}
use csi_driver_flexblock.Remote.Volumes.{volumes_listed, delete_all, delete_vol, get_andes_vol}
use csi_driver_flexblock.Volume.{value_of}
use csi_driver_flexblock.Remote.Cluster.{no_ids, remote_ids, get_cluster_id, with_login}
use csi_driver_flexblock.Http.{setting, endpoint, exchange}
use csi_driver_flexblock.Env.{Request, History, Globals, Env}
use csi_driver_flexblock.Prelude.{
  inr, inl, ap, Bool-cases, none, false, ◌≡◌, ◌||◌, ◌=ₛ◌, List, String, ◌∷◌, [], refl,
}

-- no request is answered
pub record IsSilent (env : Env) : Type 0 where
  pub no_answer : (h : History) (r : Request) → env.send_answer h r ≡ none

-- csimod is set, and not to local.
abbrev pub IsRemote : Globals → Type 0
IsRemote s =
    ((value_of "csimod" s.confinfo =ₛ "") || (value_of "csimod" s.confinfo =ₛ "local")) ≡ false

module _ (env : Env) where
  Returns-exchange : (r : Request) → Returns (exchange env r)
  unfolding exchange
  Returns-exchange r = search returns_rules

  Returns-delete_all : (token : String) (urls : List String) → Returns (delete_all env token urls)
  unfolding delete_all
  Returns-delete_all token [] = search returns_rules
  Returns-delete_all token (url ∷ urls) =
      Returns-bind _ _ (Returns-exchange _)
        λ resp. Returns-maybe resp _ _ (Returns-pure tt) λ _. Returns-delete_all token urls

  pub Returns-get_andes_vol :
      (cluster pool : ℤ) (name : String) → Returns (get_andes_vol env cluster pool name)
  unfolding get_andes_vol volumes_listed endpoint setting
  Returns-get_andes_vol cluster pool name = search (returns_rules, Returns-exchange) depth 9

  pub Returns-delete_vol :
      (cluster pool : ℤ) (name : String) → Returns (delete_vol env cluster pool name)
  unfolding delete_vol endpoint setting
  Returns-delete_vol cluster pool name =
      search (returns_rules, Returns-get_andes_vol, Returns-delete_all) depth 9

  module _ (silent : IsSilent env) where
    exchange-silent : (r : Request) (s : Globals) → (exchange env r s).0 ≡ ok none
    unfolding exchange send pure
    exchange-silent r s = elim (Bool-cases (env.url_is_valid r.url)) [
      | inl valid ↦ rw valid (ap ok (silent.no_answer s.calls r))
      | inr invalid ↦ rw invalid refl
    ]

    login-silent :
        (url : String) (r : Request) (s : Globals)
        → ((exchange env r >>= with_login env url) s).0 ≡ ok no_ids
    unfolding with_login pure
    login-silent url r s =
        ap (λ p. p.0) (bind-ok (exchange env r) (with_login env url) s none (exchange-silent r s))

    -- The clusters are -1 then, and there is no error.
    pub get_cluster_id-silent : (s : Globals) → IsRemote s → (get_cluster_id env s).0 ≡ ok no_ids
    unfolding get_cluster_id remote_ids setting endpoint gets ◌>>=◌
    get_cluster_id-silent s remote = rw remote (login-silent _ _ s)
