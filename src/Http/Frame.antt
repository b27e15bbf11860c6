-- ===== src/Http/Frame.antt =====
-- An exchange with the server leaves the maps alone.
use csi_driver_flexblock.Prelude.{String}
use csi_driver_flexblock.Env.{Env, Request}
use csi_driver_flexblock.Go.Frame.{Frame, frame_rules}
use csi_driver_flexblock.Sys.Frame.{frame_calls}
use csi_driver_flexblock.Http.{setting, endpoint, exchange}

pub Frame-setting : (key : String) → Frame (setting key)
unfolding setting
Frame-setting key = search frame_rules

pub Frame-endpoint : Frame endpoint
unfolding endpoint
Frame-endpoint = search frame_rules

pub Frame-exchange : (env : Env) (r : Request) → Frame (exchange env r)
unfolding exchange
Frame-exchange env r = search (frame_rules, frame_calls)

pub ruleset frame_http = (frame_rules, frame_calls, Frame-setting, Frame-endpoint, Frame-exchange)
