-- ===== src/Handler/Tests.antt =====
-- The handlers' checks at concrete requests.
use facebooc.Base.{◌≡◌, none, some, [], ◌++◌, codes}
use facebooc.BasicString.{whole}
use facebooc.Handler.Static.{static_handler, static_handler-contains}

static_handler-contains_example :
    static_handler
      (λ s. some (whole s))
      (λ n. [])
      (codes "/static/" ++ (codes "../" ++ codes "main.c"))
    ≡ none
static_handler-contains_example =
    static_handler-contains (λ s. some (whole s)) (λ n. []) (codes "/static/") (codes "main.c")
