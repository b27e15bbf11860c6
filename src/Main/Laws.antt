-- ===== src/Main/Laws.antt =====
-- What the process has made of its command line where it serves.
use csi_driver_flexblock.Server.Listens.{Gives-serve_endpoint, ServesAt}
use csi_driver_flexblock.Node.{new_node_server}
use csi_driver_flexblock.Go.Gives.{
  Gives-optional, Gives-maybe, Gives-pure, Gives-if, Gives-require, Gives-bind, Gives-then, Gives,
}
use csi_driver_flexblock.Controller.{new_controller_server}
use csi_driver_flexblock.Go.{ok}
use csi_driver_flexblock.Env.{Globals, Env}
use csi_driver_flexblock.Identity.{
  new_identity_server, run_driver, new_flexblock_driver, Servers, FlexBlock,
}
use csi_driver_flexblock.Main.{
  process_of, died, returned, waiting, exited, close_deferred, run, Process, handle, main,
  with_pidfile, start, Flags,
}
use csi_driver_flexblock.Server.{fatal, serving, Serving}
use csi_driver_flexblock.Endpoint.{listen_address}
use csi_driver_flexblock.Prelude.{
  not_inv, sym, subst, if◌then◌else◌, false, ◌=ₛ◌, ◌≡◌, String, refl,
}

-- What the started server stands on: the flags of the command line and the version.
pub record Started (flags : Flags) (version proto addr : String) (servers : Servers) : Type 0 where
  pub shows_no_version : flags.show_version ≡ false
  pub has_name : (flags.driver_name =ₛ "") ≡ false
  pub has_node_id : (flags.node_id =ₛ "") ≡ false
  pub listens_at : listen_address flags.endpoint ≡ ok (proto, addr)
  pub controller : servers.cs ≡ new_controller_server flags.ephemeral flags.node_id
  pub node : servers.ns ≡ new_node_server flags.node_id flags.ephemeral flags.max_volumes_per_node
  pub identity :
      servers.ids ≡ new_identity_server flags.driver_name (if version =ₛ "" then "dev" else version)

-- what is claimed of the process only while it serves
abbrev WhileServing : (String → String → Servers → Type 0) → Process → Type 0
WhileServing P returned = Unit
WhileServing P (exited n) = Unit
WhileServing P died = Unit
WhileServing P (waiting proto addr servers) = P proto addr servers

-- the driver that the flags describe
abbrev described : Flags → String → FlexBlock
described flags version = record {
  name = flags.driver_name;
  node_id = flags.node_id;
  version = if version =ₛ "" then "dev" else version;
  endpoint = flags.endpoint;
  ephemeral = flags.ephemeral;
  max_volumes_per_node = flags.max_volumes_per_node;
}

record Describes (flags : Flags) (version : String) (hp : FlexBlock) : Type 0 where
  has_name : (flags.driver_name =ₛ "") ≡ false
  has_node_id : (flags.node_id =ₛ "") ≡ false
  driver : hp ≡ described flags version

record ServersOf (hp : FlexBlock) (servers : Servers) : Type 0 where
  controller : servers.cs ≡ new_controller_server hp.ephemeral hp.node_id
  node : servers.ns ≡ new_node_server hp.node_id hp.ephemeral hp.max_volumes_per_node
  identity : servers.ids ≡ new_identity_server hp.name hp.version

module _ (env : Env) where
  Gives-new_flexblock_driver :
      (flags : Flags) (version : String)
      → Gives (Describes flags version) (
          new_flexblock_driver env flags.driver_name flags.node_id flags.endpoint flags.ephemeral
            flags.max_volumes_per_node version)
  unfolding new_flexblock_driver
  Gives-new_flexblock_driver flags version = Gives-require _ _ _ λ hn. Gives-require _ _ _ λ hi.
      Gives-require _ _ _ λ he. Gives-bind _ _ λ made. Gives-bind _ _ λ _.
        Gives-pure _ record { has_name = not_inv _ hn; has_node_id = not_inv _ hi; driver = refl }

  Gives-run_driver : (hp : FlexBlock) → Gives (ServersOf hp) (run_driver env hp)
  unfolding run_driver
  Gives-run_driver hp = Gives-bind _ _ λ _.
      Gives-bind _ _ λ _. Gives-pure _ record { controller = refl; node = refl; identity = refl }

  Started-serving :
      (flags : Flags) (version : String) (servers : Servers) (sv : Serving)
      → flags.show_version ≡ false
      → (flags.driver_name =ₛ "") ≡ false
      → (flags.node_id =ₛ "") ≡ false
      → ServersOf (described flags version) servers
      → ServesAt flags.endpoint sv
      → WhileServing (Started flags version) (process_of servers sv)
  Started-serving flags version servers fatal shows hn hi so l = tt
  Started-serving flags version servers (serving proto addr) shows hn hi so l = record {
    shows_no_version = shows;
    has_name = hn;
    has_node_id = hi;
    listens_at = l;
    controller = so.controller;
    node = so.node;
    identity = so.identity;
  }

  Started-run :
      (flags : Flags) (version : String) (hp : FlexBlock)
      → flags.show_version ≡ false
      → Describes flags version hp
      → Gives (WhileServing (Started flags version)) (run env hp)
  unfolding run
  Started-run flags version hp shows d =
      subst (λ hp. Gives (WhileServing (Started flags version)) (run env hp)) (sym d.driver)
        (Gives-then _ _ _ (Gives-run_driver (described flags version)) λ servers so.
          Gives-then _ _ _ (Gives-serve_endpoint env flags.endpoint) λ sv l.
            Gives-pure _
              (Started-serving flags version servers sv shows d.has_name d.has_node_id so l))

  Started-handle :
      (flags : Flags) (version : String)
      → flags.show_version ≡ false
      → Gives (WhileServing (Started flags version)) (handle env flags version)
  unfolding handle
  Started-handle flags version shows =
      Gives-then _ _ _ (Gives-optional _ (Gives-new_flexblock_driver flags version)) λ o known.
        Gives-maybe o _ _ (Gives-bind _ _ λ _. Gives-pure _ tt)
          λ hp there. Started-run flags version hp shows (known hp there)

  Started-start :
      (flags : Flags) (version : String)
      → Gives (WhileServing (Started flags version)) (start env flags version)
  unfolding start
  Started-start flags version =
      Gives-if _ _ _ (λ _. Gives-bind _ _ λ _. Gives-pure _ tt)
        λ shows. Gives-bind _ _ λ _. Started-handle flags version shows

  Started-with_pidfile :
      (flags : Flags) (version : String)
      → Gives (WhileServing (Started flags version)) (with_pidfile env flags version)
  unfolding with_pidfile
  Started-with_pidfile flags version = Gives-bind _ _ λ written.
      Gives-maybe written _ _
        (Gives-bind _ _
          λ closed. Gives-maybe closed _ _ (Started-start flags version) λ e _. Gives-pure _ tt)
        λ e _. Gives-pure _ tt

  Started-close_deferred :
      (flags : Flags) (version : String) (p : Process)
      → WhileServing (Started flags version) p
      → Gives (WhileServing (Started flags version)) (close_deferred env p)
  unfolding close_deferred
  Started-close_deferred flags version returned w = Gives-bind _ _ λ _. Gives-pure _ tt
  Started-close_deferred flags version (exited n) w = Gives-pure _ tt
  Started-close_deferred flags version died w = Gives-pure _ tt
  Started-close_deferred flags version (waiting proto addr servers) w = Gives-pure _ w

  Gives-main :
      (flags : Flags) (version : String)
      → Gives (WhileServing (Started flags version)) (main env flags version)
  unfolding main
  Gives-main flags version = Gives-bind _ _ λ made.
      Gives-maybe made _ _
        (Gives-bind _ _ λ opened.
          Gives-maybe opened _ _
            (Gives-then _ _ _ (Started-with_pidfile flags version)
              λ p w. Started-close_deferred flags version p w)
            λ e _. Gives-pure _ tt)
        λ e _. Gives-pure _ tt

-- Where the process serves, it was not asked for its version, it has a name and a node id, it listens at the
-- address that its endpoint says, and its three services are made of the flags and the version.
pub Started-main :
    (env : Env) (flags : Flags) (version : String) (s : Globals) (proto addr : String)
    (servers : Servers)
    → (main env flags version s).0 ≡ ok (waiting proto addr servers)
    → Started flags version proto addr servers
Started-main env flags version s proto addr servers h = (Gives-main env flags version).at s _ h
