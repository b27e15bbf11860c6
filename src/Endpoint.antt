-- ===== src/Endpoint.antt =====
-- pkg/flexblock/server.go: parseEndpoint, and the address that `serve` listens on.
pub mod Laws
use csi_driver_flexblock.Prelude.{
  String, Bool, ◌||◌, not, Option, none, some, ◌=ₛ◌, if◌then◌else◌, [], refl,
}
use csi_driver_flexblock.Prelude.Text.{◌<>◌, cut, has_prefix_fold}
use csi_driver_flexblock.Go.{Result, ok, err, panic, pending, plain}

-- strings.SplitN(ep, "://", 2), of which the source reads s[1] without a test of the length
abbrev pub split_endpoint : Option (String × String) → Result (String × String)
split_endpoint none = panic
split_endpoint (some (proto, addr)) = if not (addr =ₛ "") then ok (proto, addr) else err plain

unfoldable pub parse_endpoint : String → Result (String × String)
unfolding cut has_prefix_fold
parse_endpoint ep =
    if has_prefix_fold ep "unix://" || has_prefix_fold ep "tcp://"
    then split_endpoint (cut "://" ep)
    else err plain

-- what net.Listen is called with
unfoldable pub listen_address : String → Result (String × String)
unfolding parse_endpoint ◌<>◌
listen_address ep = elim (parse_endpoint ep) [
  | ok (proto, addr) ↦ if proto =ₛ "unix" then ok (proto, "/" <> addr) else ok (proto, addr)
  | err e ↦ err e
  | panic ↦ panic
  | pending ↦ pending
]
