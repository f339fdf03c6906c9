-- ===== src/Programs/Consumer.antt =====
-- example/dubbo/go-client/cmd/client.go: `testSayHello` and `testSayHelloStream`. What the stub does is
-- dubbo-go's.
use triple.Base.{◌>>=◌, none, pure, ◌>>◌, panic, some, String, Option, M}
use triple.Programs.{infof_user, infof, write, User, Process, HelloRequest}
use triple.Common.Context.{background, Context}
use triple.Common.Error.{text, nil_value, Value, Err}
use triple.Programs.Provider.{Pair}
use triple.Common.Constant.{triple_request_id}
use triple.Base.Dict.{insert}

-- proto.GreeterClientImpl, whose functions dubbo-go fills in, and the client's end of a stream.
pub record StreamClient (W : Type 0) : Type 0 where
  pub send : HelloRequest → M (Process W) (Option Err)
  pub recv : M (Process W) (Pair User)

pub record GreeterClientImpl (W : Type 0) : Type 0 where
  pub say_hello_stream : Context → M (Process W) (Option (StreamClient W) × Option Err)
  pub say_hello : Context → HelloRequest → M (Process W) (Pair User)

-- `context.WithValue`
abbrev pub with_value : Context → String → Value → Context
with_value ctx key v = record ctx { values = insert key v ctx.values }

abbrev pub test_context : Context
test_context = with_value background triple_request_id (text "triple-request-id-demo")

abbrev pub test_request : HelloRequest
test_request = record { name = "laurence" }

module _ {W : Type 0} (greeter_provider : GreeterClientImpl W) where
  -- `if err != nil { panic(err) }`
  panic_if : Option Err → M (Process W) (Unit {0})
  panic_if (some err) = panic
  panic_if none = pure tt

  -- A method that is called on a nil interface panics.
  on_client :
      {A : Type 0} → Option (StreamClient W) → (StreamClient W → M (Process W) A) → M (Process W) A
  on_client none f = panic
  on_client (some c) f = f c

  unfoldable pub test_say_hello : M (Process W) (Unit {0})
  unfolding panic_if
  test_say_hello = do
    write (infof "testSayHello" nil_value)
    (user, err) ← greeter_provider.say_hello test_context test_request
    panic_if err
    write (infof_user "get response user = %+v\n" user)

  -- `*user`, which panics on nil, is what is logged.
  log_user : Option User → M (Process W) (Unit {0})
  log_user none = panic
  log_user (some u) = write (infof_user "Receive user = %+v\n" (some u))

  unfoldable pub test_say_hello_stream : M (Process W) (Unit {0})
  unfolding panic_if on_client log_user
  test_say_hello_stream = do
    write (infof "testSayHelloStream" nil_value)
    (client, err) ← greeter_provider.say_hello_stream test_context
    panic_if err
    err ← on_client client (λ c. c.send test_request)
    panic_if err
    (user, err) ← on_client client (λ c. c.recv)
    panic_if err
    log_user user
