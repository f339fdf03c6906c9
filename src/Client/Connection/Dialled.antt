-- ===== src/Client/Connection/Dialled.antt =====
-- The timeout of a connection that has been dialled.
use triple.Base.{any-Post, bind-Post, ◌≡◌, Post, List, String, defer, pure, refl}
use triple.Client.Connection.{new_triple_conn, dial}
use triple.Client.Network.{Net, DialOption, GrpcLib}
use triple.Base.Int.{ℤ}

module _ {S Codec : Type 0} (grpc : GrpcLib S Codec) where
  pub new_triple_conn-timeout :
      (timeout : ℤ) (address : String) (opts : List DialOption) (n : Net S)
      → Post (λ t. t.timeout ≡ timeout) (new_triple_conn grpc timeout address opts n).1
  unfolding new_triple_conn dial pure defer
  new_triple_conn-timeout timeout address opts n =
      bind-Post (λ u. Unit {0}) _ _ _ n (any-Post _)
        λ u t x. bind-Post (λ r. Unit {0}) _ _ _ t (any-Post _) λ r t' x'. refl
