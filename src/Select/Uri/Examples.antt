-- ===== src/Select/Uri/Examples.antt =====
-- Requests and their slots, as src/algorithms.c reads them.
use octopuslb.Base.{ℕ, ◌≡◌, refl, List, [], ◌∷◌, ◌++◌, arith, contains}
use octopuslb.Select.Uri.{request_uri, strip_query}
use octopuslb.Select.Uri.Parse.{IsWord, request_uri_lem}

-- `GET`, `/a` and `x=1`.
abbrev get : List ℕ
get = 71 ∷ 69 ∷ 84 ∷ []

abbrev path : List ℕ
path = 97 ∷ []

abbrev query : List ℕ
query = 120 ∷ 61 ∷ 49 ∷ []

get-IsWord : IsWord get
unfolding contains
get-IsWord = record { no_space = refl; no_newline = refl; no_nul = refl }

path-IsWord : IsWord (47 ∷ path)
unfolding contains
path-IsWord = record { no_space = refl; no_newline = refl; no_nul = refl }

request_uri_lem_example :
    request_uri ((get ++ (32 ∷ 47 ∷ path)) ++ (32 ∷ query)) ≡ strip_query (47 ∷ path)
request_uri_lem_example = request_uri_lem get 47 path query get-IsWord path-IsWord (omega arith)
