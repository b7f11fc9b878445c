-- ===== src/Examples/Token.antt =====
-- Access tokens of pkg/token on the server of Examples/Server.
use go_grpc_starter.Prelude.{ℕ, String, ◌≡◌, ◌≢◌, refl, sym, ◌∙◌, arith, ap}
use Prim.Native.String.{count}
use go_grpc_starter.Errs.{ok}
use go_grpc_starter.Redis.Reach.{Reach}
use go_grpc_starter.Redis.{Command}
use go_grpc_starter.Cache.{Codec}
use go_grpc_starter.Token.{AccessTokenClaims, generate, store_token, validate, revoke, redis_key}
use go_grpc_starter.Token.Life.{generated_valid, revoke_final}
use go_grpc_starter.Examples.Server.{
  Server, server, works, empty, written, unary, count_unary, ok_inj,
}

abbrev claims_of : ℕ → AccessTokenClaims
claims_of session_id = record {
  session_id = session_id;
  user_id = 1;
  device_id = "phone";
  issued_at = 50;
}

-- The claims of one device, which are told apart by their session
abbrev pub json : Codec AccessTokenClaims
json = record { marshal = λ c. ok (unary c.session_id); unmarshal = λ t. ok (claims_of (count t)) }

abbrev random : Command Server String
random r = (ok "random", r)

abbrev pub with_token : Server
with_token = (generate server (λ t. t) json random 1800 50 2 1 "phone" empty).1

comes_back : (t : String) → json.marshal (claims_of 2) ≡ ok t → json.unmarshal t ≡ ok (claims_of 2)
comes_back t e =
    ap (λ x. ok (claims_of (count x))) (sym (ok_inj e)) ∙ ap (λ n. ok (claims_of n)) (count_unary 2)

generated_valid_example :
    (validate server (λ t. t) json "at_random" (works.wait 1000 with_token)).0 ≡ ok (claims_of 2)
unfolding generate store_token redis_key written unary
generated_valid_example =
    generated_valid server works (λ t. t) json random 1800 50 2 1 "phone" "at_random" empty
      (works.wait 1000 with_token) 1000 (omega arith) comes_back refl refl refl

revoke_final_example :
    (validate server (λ t. t) json "at_random" (revoke server (λ t. t) "at_random" with_token).1).0
    ≢ ok (claims_of 2)
unfolding revoke
revoke_final_example =
    revoke_final server works (λ t. t) json "at_random" with_token
      (revoke server (λ t. t) "at_random" with_token).1 refl Reach.here
