-- ===== src/Server/Tests.antt =====
-- Routes of src/facebooc_server.c at concrete URIs, with the handlers told apart by numbers.
use facebooc.Base.{ℕ, ◌≡◌, ◌∷◌, ◌++◌, codes, ok, All}
use facebooc.Server.{Handlers, handler_table}
use facebooc.Server.Route.{routed, routed-handler_table}

abbrev numbered : Handlers ℕ
numbered = record {
  connect = 1;
  dashboard = 2;
  home = 3;
  like = 4;
  unlike = 5;
  login = 6;
  logout = 7;
  post = 8;
  profile = 9;
  search = 10;
  signup = 11;
  static_handler = 12;
}

routed-handler_table_example :
    All
      (λ (name, func). routed numbered 0 (b'/' ∷ (name ++ b'/' ∷ codes "7/")) ≡ ok func)
      (handler_table numbered)
routed-handler_table_example = routed-handler_table numbered 0 (codes "7/")
