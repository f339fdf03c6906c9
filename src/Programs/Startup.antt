-- ===== src/Programs/Startup.antt =====
-- example/dubbo/go-server/cmd/server.go: `init` and `main`, over dubbo-go.
use triple.Base.{◌>>◌, String, ℕ, List, M}
use triple.Programs.{Process}
use triple.Programs.Signals.{init_signal, Signal, Wait}

-- What the program asks of the runtime, of net/http and of dubbo-go's configuration. The HTTP server runs
-- in a goroutine of its own, so only its start is seen here; any call may panic.
pub record Platform (W : Type 0) : Type 0 where
  pub set_mutex_profile_fraction : ℕ → M (Process W) (Unit {0})
  pub set_provider_service : M (Process W) (Unit {0})
  pub go_listen_and_serve : String → M (Process W) (Unit {0})
  pub load : M (Process W) (Unit {0})

module _ {W : Type 0} (platform : Platform W) (string_of : Signal → String) where
  -- Go runs `init` before `main`.
  unfoldable pub run_provider : List Signal → M (Process W) Wait
  run_provider signals = do
    platform.set_mutex_profile_fraction 1
    platform.set_provider_service
    platform.go_listen_and_serve "0.0.0.0:6060"
    platform.load
    init_signal string_of signals
