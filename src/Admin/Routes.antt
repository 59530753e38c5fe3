-- ===== src/Admin/Routes.antt =====
-- internal/admin/server.go: the routes that `New` registers, and a series of requests. The mux is the
-- one of `net/http`, for a path that is clean; it answers another one by a redirection to the clean one.
pub mod Contents
use gobalancer.Common.{
  ℕ, zero, suc, ◌+◌, ◌-◌, ◌*◌, ◌/◌, ◌%◌, ◌≤◌, ◌<◌, min, bit_xor, String, ◌≡◌, refl, sym, ap, subst,
  fun_ext, ◌∙◌, ◌≡⟨◌⟩◌, ◌∎, ◌≢◌, ◌↔◌, ◌⊎◌, inl, inr, Bool, true, false, not, ◌&&◌, ◌||◌, Option,
  none, some, List, [], ◌∷◌, ◌++◌, map, reverse, Memᴰ, append-nil, append_assoc, arith, ltb, leb,
  ◌==◌, if◌then◌else◌, ltb→lt, lt→ltb, leb→le, ==_iff, tests, Bool-cases, Option-cases, ◌>>=◌,
  of_some, length, get_elem?, take, drop, replicate, select, length-append, take-append-drop,
  length-drop, length-replicate, get_elem?_total, get_elem?-mem, get_elem?-append, drop-get_elem?,
  take_all, count-select, All-append, All-take, All-drop, All-replicate, All-mem, All-intro,
  drop_all, take-get_elem?, All, count, count-append, ℤ, pos, negsuc, pos_part, neg_part, sub_ℕ,
  ◌+ℤ◌, ◌-ℤ◌, ◌≤ℤ◌, ◌<ℤ◌, ltb_ℤ, leb_ℤ, eq_ℤ, rounds, two_64, two_63, max_int64, wrap64, add64,
  sub64, IsInt64, wrap64-IsInt64, wrap64_id, add64_one, add64_pos, rem_ℤ, index, clamp64, since,
  second, Str, lit, str_eq, str_eq_iff, str_eq_refl, is_empty, index_byte, last_index_byte,
  contains, contains-append, All-contains, decimal, index_byte-lt, last_index_byte-lt,
  last_index_byte-none, lookup, insert, remove, lookup-insert, lookup-insert_self, insert-insert,
  lookup-remove,
}
use gobalancer.Backend.{Url}
use gobalancer.Admin.{
  Server, AddRequest, Response, backends_path, without_prefix, handle_list, handle_add,
  handle_remove, handle_update_weight, handle_reload,
}

pub data Route : Type 0 where
  lists adds removes updates reloads : Route  -- the handlers, in the order of their registration
  moved : Route  -- 301, to the path with a slash behind it
  not_allowed : Route  -- 405
  missing : Route  -- 404

-- `GET` is also `HEAD`; a method that only the path with a slash has is redirected there.
unfoldable pub on_backends : Str → Route
on_backends method =
    if str_eq method (lit "GET") || str_eq method (lit "HEAD")
    then lists
    else if str_eq method (lit "POST")
    then adds
    else if str_eq method (lit "DELETE") || str_eq method (lit "PUT")
    then moved
    else not_allowed

unfoldable pub on_backend : Str → Route
on_backend method =
    if str_eq method (lit "DELETE")
    then removes
    else if str_eq method (lit "PUT")
    then updates
    else not_allowed

unfoldable pub on_reload : Str → Route
on_reload method = if str_eq method (lit "POST") then reloads else not_allowed

abbrev is_some : Option Str → Bool
is_some none = false
is_some (some _) = true

-- The mux of `New`.
unfoldable pub route : Str → Str → Route
unfolding on_backends on_backend on_reload without_prefix
route method path =
    if str_eq path (lit "/admin/backends")
    then on_backends method
    else if str_eq path (lit "/admin/reload")
    then on_reload method
    else if is_some (without_prefix backends_path path)
    then on_backend method
    else missing

pub record AdminRequest : Type 0 where
  pub method : Str
  pub path : Str
  pub body : Str

pub data Answer : Type 0 where
  handled : Response → Answer
  refused : Route → Answer

abbrev pub answered : Response × Server → Answer × Server
answered (a, s) = (handled a, s)

-- `decode_add` and `decode_weight` are the JSON decoder for the two request types, `none` its error.
module _ (parse : Str → Option Url) (print : Url → Str) (decode_add : Str → Option AddRequest)
    (decode_weight : Str → Option ℤ) where
  unfoldable pub handle : Route → Str → Str → Server → Answer × Server
  unfolding handle_list handle_add handle_remove handle_update_weight handle_reload
  handle lists path body s = (handled (handle_list parse print s), s)
  handle adds path body s = answered (handle_add parse print (decode_add body) s)
  handle removes path body s = answered (handle_remove parse print path s)
  handle updates path body s =
      answered (handle_update_weight parse print path (decode_weight body) s)
  handle reloads path body s = answered (handle_reload parse print s)
  handle r path body s = (refused r, s)

  unfoldable pub serve : AdminRequest → Server → Answer × Server
  unfolding route handle
  serve r s = handle (route r.method r.path) r.path r.body s

  -- The answers to a series of requests, and the server behind them.
  unfoldable pub run : List AdminRequest → Server → List Answer × Server
  unfolding serve
  run [] s = ([], s)
  run (r ∷ rs) s = let (a, s') = serve r s in let rest = run rs s' in (a ∷ rest.0, rest.1)
