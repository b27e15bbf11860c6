-- ===== src/Server/Lifecycle.antt =====
-- pkg/flexblock/server.go: the server's fields, Start, Wait, Stop and ForceStop, and the steps of the goroutine
-- that `serve` is, beside those of Run in pkg/flexblock/flexblock.go.
pub mod Laws
use csi_driver_flexblock.Server.{fatal, serving, serve_endpoint}
use csi_driver_flexblock.Node.{NodeServer}
use csi_driver_flexblock.Sys.{graceful_stop, hard_stop}
use csi_driver_flexblock.Controller.{ControllerServer}
use csi_driver_flexblock.Identity.{IdentityServer, Servers}
use csi_driver_flexblock.Env.{Globals, Env}
use csi_driver_flexblock.Go.{ok, crash, maybe, Go}
use csi_driver_flexblock.Prelude.{
  true, ◌==◌, some, ◌≡◌, ◌+◌, ℕ, Option, Bool, none, String, [], refl,
}

-- what is registered with a grpc.Server
pub record GrpcServer : Type 0 where
  pub identity : Option IdentityServer
  pub controller : Option ControllerServer
  pub node : Option NodeServer

-- nonBlockingGRPCServer: the count of the wait group, and the server, which is nil at first
pub record NonBlockingServer : Type 0 where
  pub wg : ℕ
  pub server : Option GrpcServer

-- NewNonBlockingGRPCServer
abbrev pub new_non_blocking_server : NonBlockingServer
new_non_blocking_server = record { wg = 0; server = none }

-- Start, up to the goroutine
abbrev pub start : NonBlockingServer → NonBlockingServer
start s = record s { wg = s.wg + 1 }

-- whether Wait returns
abbrev pub wait_returns : NonBlockingServer → Bool
wait_returns s = s.wg == 0

-- Stop: a nil server is dereferenced.
unfoldable pub stop : Env → NonBlockingServer → Go (Unit {0})
stop env s = maybe s.server crash λ _. graceful_stop env

-- ForceStop
unfoldable pub force_stop : Env → NonBlockingServer → Go (Unit {0})
force_stop env s = maybe s.server crash λ _. hard_stop env

-- grpc.NewServer
abbrev pub new_server : GrpcServer
new_server = record { identity = none; controller = none; node = none }

abbrev or_kept {ℓ} : {A : Type ℓ} → Option A → Option A → Option A
or_kept none kept = kept
or_kept (some a) kept = some a

-- the registration of the services that are not nil
abbrev pub register :
    Option IdentityServer → Option ControllerServer → Option NodeServer → GrpcServer → GrpcServer
register ids cs ns server = record {
  identity = or_kept ids server.identity;
  controller = or_kept cs server.controller;
  node = or_kept ns server.node;
}

-- where the goroutine of `serve` stands
pub data Phase : Type 0 where
  not_begun begun died : Phase
  opened made serves over : String → String → Phase

-- where Run stands
pub data Caller : Type 0 where
  starting waiting returned : Caller

pub record System : Type 0 where
  pub globals : Globals
  pub server : NonBlockingServer
  pub goroutine : Phase
  pub caller : Caller

-- Run, with its services made, before Start
abbrev pub initial : Globals → System
initial s = record {
  globals = s;
  server = new_non_blocking_server;
  goroutine = not_begun;
  caller = starting;
}

-- the services of Run, as the arguments of `serve`
abbrev pub registered : Servers → GrpcServer → GrpcServer
registered servers = register (some servers.ids) (some servers.cs) (some servers.ns)

abbrev pub on_server : (GrpcServer → GrpcServer) → Option GrpcServer → Option GrpcServer
on_server f none = none
on_server f (some server) = some (f server)

abbrev pub with_server : (GrpcServer → GrpcServer) → NonBlockingServer → NonBlockingServer
with_server f s = record s { server = on_server f s.server }

-- One step of Run or of the goroutine, in any order.
pub data Step (env : Env) (ep : String) (servers : Servers) (s t : System) : Type 0 where
  starts :
      s.caller ≡ starting
      → t ≡ record s { server = start s.server; goroutine = begun; caller = waiting }
      → Step env ep servers s t
  returns :
      s.caller ≡ waiting
      → wait_returns s.server ≡ true
      → t ≡ record s { caller = returned }
      → Step env ep servers s t
  opens :
      (proto addr : String) (g : Globals)
      → s.goroutine ≡ begun
      → serve_endpoint env ep s.globals ≡ (ok (serving proto addr), g)
      → t ≡ record s { globals = g; goroutine = opened proto addr }
      → Step env ep servers s t
  dies :
      (g : Globals)
      → s.goroutine ≡ begun
      → serve_endpoint env ep s.globals ≡ (ok fatal, g)
      → t ≡ record s { globals = g; goroutine = died }
      → Step env ep servers s t
  makes :
      (proto addr : String)
      → s.goroutine ≡ opened proto addr
      → t ≡ record s {
        server = record s.server { server = some new_server };
        goroutine = made proto addr;
      }
      → Step env ep servers s t
  registers :
      (proto addr : String)
      → s.goroutine ≡ made proto addr
      → t ≡ record s {
        server = with_server (registered servers) s.server;
        goroutine = serves proto addr;
      }
      → Step env ep servers s t
  -- server.Serve has returned
  ends :
      (proto addr : String)
      → s.goroutine ≡ serves proto addr
      → t ≡ record s { goroutine = over proto addr }
      → Step env ep servers s t

pub data Reach (env : Env) (ep : String) (servers : Servers) (s : System) : System → Type 0 where
  here : Reach env ep servers s s
  next :
      {t u : System} → Reach env ep servers s t → Step env ep servers t u → Reach env ep servers s u
