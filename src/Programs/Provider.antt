-- ===== src/Programs/Provider.antt =====
-- example/dubbo/go-server/cmd/server.go: `GreeterProvider`.
use triple.Base.{◌*◌, none, concat, ◌>>◌, pure, some, panic, ◌>>=◌, Option, M}
use triple.Common.Context.{value_of, Context}
use triple.Programs.{second, sleep, println, infof, write, User, Process, HelloRequest}
use triple.Common.Error.{nil_value, text, Err}
use triple.Common.Constant.{triple_service_version, triple_request_id}

-- A result and an error, each of which may be nil.
abbrev pub Pair : Type 0 → Type 0
Pair A = Option A × Option Err

-- The stream that the generated code hands to `SayHelloStream`.
pub record StreamServer (W : Type 0) : Type 0 where
  pub recv : M (Process W) (Pair HelloRequest)
  pub send : User → M (Process W) (Option Err)

module _ {W : Type 0} where
  -- The stream's method behind a `Recv` that gave no error; a nil request panics.
  greet : StreamServer W → Option HelloRequest → M (Process W) (Option Err)
  greet svr none = panic
  greet svr (some c) = do
    write (infof "Dubbo-go3 GreeterProvider recv 1 user, name = %s\n" (text c.name))
    svr.send (record { name = concat "hello " c.name; id = "123456789"; age = 18 })

  greet_received : StreamServer W → Pair HelloRequest → M (Process W) (Option Err)
  unfolding greet
  greet_received svr (c, some err) = pure (some err)
  greet_received svr (c, none) = greet svr c

  unfoldable pub say_hello_stream : StreamServer W → M (Process W) (Option Err)
  unfolding greet_received
  say_hello_stream svr = do received ← svr.recv; greet_received svr received

  -- The name is put into the format; there is no argument.
  get_user_name : HelloRequest → M (Process W) (Unit {0})
  get_user_name request =
      write (infof (concat "Dubbo3 GreeterProvider get user name = %s\n" request.name) nil_value)

  unfoldable pub say_hello : Context → HelloRequest → M (Process W) (Pair User)
  unfolding get_user_name
  say_hello ctx request = do
    get_user_name request
    write (println "get triple header tri-req-id = " (value_of ctx triple_request_id))
    sleep (second * 1)
    write (println "get triple header tri-service-version = " (value_of ctx triple_service_version))
    pure (some (record { name = request.name; id = "12345"; age = 21 }), none)

  unfoldable pub say_hello_with_error : Context → HelloRequest → M (Process W) (Pair User)
  unfolding get_user_name
  say_hello_with_error ctx request = do
    get_user_name request
    write (println "get triple header tri-req-id = " (value_of ctx triple_request_id))
    sleep (second * 1)
    let err = Err.errorf "user defined error"
    write (println "get triple header tri-service-version = " (value_of ctx triple_service_version))
    pure (some (record { name = request.name; id = "12345"; age = 21 }), some err)
