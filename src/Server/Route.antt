-- ===== src/Server/Route.antt =====
-- The routes that `FB_new` sets up.
use facebooc.Base.{
  ◌≡◌, refl, [], ◌∷◌, ◌++◌, Bytes, strchr, streq, Run, ok, ◌>>=◌, All, Lacks, strchr-Lacks,
}
use facebooc.HashMap.{
  hash_map_new, hash_map_insert_move, hash_map_get, hash_key, hash_from, get_index, next_index,
  get_loop, holds, move_loop, move_entry, make_room,
}
use facebooc.Server.{
  fetch_dir, read_dir, uri_path, server_new, set_callback, called, server_add_handler, add_handlers,
  route, or_default, Handlers, handler_table, fb_new,
}

-- The handler that a server routes a URI to.
pub routed {ℓ} : {H : Type ℓ} → Handlers H → H → Bytes → Run H
routed {H = H} h callback uri = fb_new h callback >>= (λ server. route H server uri)

-- Every row of `handler_table` is in effect: a URI whose first part is the row's name, with a slash
-- behind it, is routed to the row's function.
pub routed-handler_table {ℓ} :
    {H : Type ℓ} (h : Handlers H) (callback : H) (rest : Bytes)
    → All
        (λ (name, func). routed h callback (b'/' ∷ (name ++ b'/' ∷ rest)) ≡ ok func)
        (handler_table h)
unfolding routed fb_new server_new set_callback called handler_table add_handlers server_add_handler
    route fetch_dir read_dir uri_path or_default hash_map_new hash_map_insert_move hash_map_get
    hash_key hash_from get_index next_index get_loop holds move_loop move_entry make_room streq
    strchr
routed-handler_table h callback rest = (
  refl,
  (refl, (refl, (refl, (refl, (refl, (refl, (refl, (refl, (refl, (refl, (refl, tt))))))))))),
)

fetch_dir-Lacks : (s : Bytes) → Lacks b'/' s → fetch_dir s ≡ ok []
unfolding fetch_dir
fetch_dir-Lacks s h = rw (strchr-Lacks s b'/' h, fetch_dir) refl

-- A URI without a second slash is routed to the home page, whatever stands in it.
pub routed-home {ℓ} :
    {H : Type ℓ} (h : Handlers H) (callback : H) (s : Bytes)
    → Lacks b'/' s
    → routed h callback (b'/' ∷ s) ≡ ok h.home
unfolding routed fb_new server_new set_callback called handler_table add_handlers server_add_handler
    route read_dir uri_path or_default hash_map_new hash_map_insert_move hash_map_get hash_key
    hash_from get_index next_index get_loop holds move_loop move_entry make_room streq
routed-home h callback s lacks = rw (fetch_dir-Lacks s lacks) refl
