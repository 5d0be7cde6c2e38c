-- ===== src/Runner/Base/Responses.antt =====
-- What a runner over HTTP makes of an answer.
use redash.Prelude.{
  String, ◌≡◌, Bool, false, not, Option, none, some, arith, ◌==◌, nat_eq, string_eq, list_eq,
  option_eq, is_some, pair_eq,
}
use redash.Runner.Base.{
  Outcome, returns, raises, HttpConfiguration, Auth, get_auth, Response, Got, answered,
  request_exception, other_exception, with_got, get_response,
}

-- The request has the status 200.
abbrev pub is_success : Option Response → Bool
is_success none = false
is_success (some r) = r.status_code == 200

returned-is_success :
    (response_error : String) (g : Got) (response : Option Response) (error : Option String)
    → with_got response_error g ≡ returns (response, error)
    → is_some error ≡ not (is_success response)
returned-is_success e (answered r) response error h = ground (arith, h)
returned-is_success e (request_exception message) response error h = ground (arith, h)
returned-is_success e (other_exception x) response error h = cc

-- Where a request over HTTP returns, it gives an error unless the service answered with the status 200.
pub get_response-is_success :
    (get : Option Auth → Got) (c : HttpConfiguration) (response_error : String) (auth : Option Auth)
    (response : Option Response) (error : Option String)
    → get_response get c response_error auth ≡ returns (response, error)
    → is_some error ≡ not (is_success response)
unfolding get_response
get_response-is_success get c e (some auth) response error h =
    returned-is_success e (get (some auth)) response error h
get_response-is_success get c e none response error h = of_auth (get_auth c) h
  where
    of_auth :
        (o : Outcome (Option Auth))
        → (elim o [ raises x ↦ raises x | returns auth ↦ with_got e (get auth) ])
          ≡ returns (response, error)
        → is_some error ≡ not (is_success response)
    of_auth (raises x) h = cc
    of_auth (returns auth) h = returned-is_success e (get auth) response error h
