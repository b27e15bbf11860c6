-- ===== src/Http.antt =====
-- One exchange with the management server, as all of pkg/flexblock/flexblock.go makes it.
pub mod Frame
use csi_driver_flexblock.Prelude.{String, Bool, Option, none, some, ◌==◌, if◌then◌else◌, ℕ}
use csi_driver_flexblock.Prelude.Text.{◌<>◌}
use csi_driver_flexblock.Volume.{value_of}
use csi_driver_flexblock.Env.{Env, Globals, Request, Response}
use csi_driver_flexblock.Go.{Go, pure, gets}
use csi_driver_flexblock.Sys.{send}

abbrev pub form : String
form = "application/x-www-form-urlencoded"

abbrev pub json : String
json = "application/json"

-- confinfo[key]
unfoldable pub setting : String → Go String
setting key = gets (λ s. value_of key s.confinfo)

-- "http://"+storagemngip+":"+storagemngport
unfoldable pub endpoint : Go String
endpoint = gets (λ s.
    "http://" <> value_of "storagemngip" s.confinfo <> ":" <> value_of "storagemngport" s.confinfo)

abbrev pub request : String → String → String → Option String → String → Request
request method url content_type token body = record {
  method = method;
  url = url;
  content_type = content_type;
  token = token;
  body = body;
}

-- The body of an answer with status 200.
abbrev pub body_of_ok : Option Response → Option String
body_of_ok none = none
body_of_ok (some r) = if r.status_code == 200 then some r.body else none

module _ (env : Env) where
  -- http.NewRequest and client.Do: `none` where either returns an error
  unfoldable pub exchange : Request → Go (Option Response)
  exchange r = if env.url_is_valid r.url then send env r else pure none
