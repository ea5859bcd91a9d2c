-- ===== src/Graph/Handler.antt =====
-- packages/indexer/internal/graph/handler.go: what the handler of `/graphql` does with the response
-- writer. `encoding/json` and `graphql.Do` are parameters.
use agro_diamond_compliance.Prelude.{
  ℕ, Option, none, some, List, [], ◌∷◌, ◌++◌, ◌==◌, bytes_eq, if◌then◌else◌,
}
use agro_diamond_compliance.Bytes.{Bytes, codes}
use agro_diamond_compliance.Action.{Action, pure, ◌>>=◌}

-- The calls on the response writer.
pub data Written : Type 0 where
  set_header : Bytes → Bytes → Written
  write_header : ℕ → Written
  -- `http.Error(w, text, status)`
  http_error : Bytes → ℕ → Written
  -- `json.NewEncoder(w).Encode(result)`, whose error is only logged
  encode : Bytes → Written

pub record HttpRequest : Type 0 where
  pub method : Bytes
  pub body : Bytes

abbrev pub cors : List Written
cors =
    set_header (codes "Access-Control-Allow-Origin") (codes "*")
    ∷ set_header (codes "Access-Control-Allow-Headers") (codes "Content-Type")
    ∷ set_header (codes "Access-Control-Allow-Methods") (codes "POST, OPTIONS")
    ∷ []

-- `Params` is what the request body decodes to, and what `graphql.Do` runs.
module _ {State Params : Type 0} (decode_params : Bytes → Option Params)
    (run_query : Params → Action State Bytes) where
  unfoldable respond : Option Params → Action State (List Written)
  respond none = pure (cors ++ http_error (codes "{\"error\":\"invalid request body\"}") 400 ∷ [])
  respond (some params) = do
    result ← run_query params
    pure (cors ++ set_header (codes "Content-Type") (codes "application/json") ∷ encode result ∷ [])

  unfoldable pub handler : HttpRequest → Action State (List Written)
  unfolding respond
  handler request =
      let answer = respond (decode_params request.body) in
      if request.method == codes "OPTIONS" then pure (cors ++ write_header 200 ∷ []) else answer
