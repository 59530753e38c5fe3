-- ===== src/Middleware/Gzip.antt =====
-- internal/middleware/gzip.go. The compressor of `compress/gzip` is a parameter; what it gives out for
-- one call of `Write` goes to the connection in one call.
pub mod Header
pub mod Roundtrip
use gobalancer.Common.{
  ℕ, zero, suc, ◌+◌, ◌-◌, ◌*◌, ◌/◌, ◌%◌, ◌≤◌, ◌<◌, min, bit_xor, String, ◌≡◌, refl, sym, ap, subst,
  fun_ext, ◌∙◌, ◌≡⟨◌⟩◌, ◌∎, ◌≢◌, ◌↔◌, ◌⊎◌, inl, inr, Bool, true, false, not, ◌&&◌, ◌||◌, Option,
  none, some, List, [], ◌∷◌, ◌++◌, map, reverse, Memᴰ, append-nil, append_assoc, arith, ltb, leb,
  ◌==◌, if◌then◌else◌, ltb→lt, lt→ltb, leb→le, ==_iff, tests, Bool-cases, Option-cases, ◌>>=◌,
  of_some, length, get_elem?, take, drop, replicate, select, length-append, take-append-drop,
  length-drop, length-replicate, get_elem?_total, get_elem?-mem, get_elem?-append, drop-get_elem?,
  take_all, count-select, All-append, All-take, All-drop, All-replicate, All-mem, All-intro,
  drop_all, take-get_elem?, All, count, count-append, ℤ, pos, negsuc, pos_part, neg_part, sub_ℕ,
  ◌+ℤ◌, ◌-ℤ◌, ◌≤ℤ◌, ◌<ℤ◌, ltb_ℤ, leb_ℤ, eq_ℤ, rounds, two_64, two_63, max_int64, wrap64, add64,
  sub64, IsInt64, wrap64-IsInt64, wrap64_id, add64_one, add64_pos, rem_ℤ, index, clamp64, since,
  second, Str, lit, str_eq, str_eq_iff, str_eq_refl, is_empty, index_byte, last_index_byte,
  contains, contains-append, All-contains, decimal, index_byte-lt, last_index_byte-lt,
  last_index_byte-none, lookup, insert, remove, lookup-insert, lookup-insert_self, insert-insert,
  lookup-remove,
}
use gobalancer.Http.{header_get}
use gobalancer.Http.Serving.{
  Status, Serving, returns, sets, deletes, writes_header, writes, bind, Wrapper, wrapped, resume,
  Handler,
}

-- A compressor: its state behind `Reset`, what `Write` and `Close` give out, and its reader.
pub record Codec : Type 1 where
  pub Coder : Type 0
  pub reset : Coder
  pub encode : Coder → Str → Str × Coder
  pub close : Coder → Str
  pub decode : Str → Option Str

abbrev is_prefix : Str → Str → Bool
is_prefix [] s = true
is_prefix (x ∷ xs) [] = false
is_prefix (x ∷ xs) (y ∷ ys) = x == y && is_prefix xs ys

-- `strings.Contains`
unfoldable pub contains_str : Str → Str → Bool
contains_str sub [] = is_empty sub
contains_str sub (c ∷ s) = is_prefix sub (c ∷ s) || contains_str sub s

module _ (codec : Codec) where
  open codec use {Coder}

  -- The writer keeps its first error.
  pub record GzipResponseWriter : Type 0 where
    pub coder : Coder
    pub failed : Bool

  unfoldable pub written : Str → Coder → ℕ × Bool → (ℕ × Bool) × GzipResponseWriter
  written b coder (n, err) =
      if err
      then ((0, true), record { coder = coder; failed = true })
      else ((length b, false), record { coder = coder; failed = false })

  unfoldable pub write : GzipResponseWriter → Str → Serving ((ℕ × Bool) × GzipResponseWriter)
  unfolding written
  write g b =
      let (out, coder) = codec.encode g.coder b in
      if g.failed then returns ((0, true), g) else writes out (λ a. returns (written b coder a))

  unfoldable pub write_header : GzipResponseWriter → Status → Serving GzipResponseWriter
  write_header g code = deletes (lit "Content-Length") (writes_header code (returns g))

  unfoldable pub gzip_writer : Wrapper GzipResponseWriter
  unfolding write write_header
  gzip_writer = record { write_header = write_header; write = write }

  -- The deferred `Close`, and what stands behind it: the return or the panic.
  unfoldable pub close : Option (Unit {0}) → GzipResponseWriter → Serving (Unit {0})
  unfolding resume
  close o g =
      if g.failed then resume o returns else writes (codec.close g.coder) (λ _. resume o returns)

  -- The bound `minBytes` is never read.
  unfoldable pub gzip_middleware : ℕ → Handler → Handler
  unfolding contains_str header_get gzip_writer bind wrapped close
  gzip_middleware min_bytes next r =
      if not (contains_str (lit "gzip") (header_get r.header (lit "Accept-Encoding")))
      then next r
      else sets (lit "Content-Encoding") (lit "gzip") (
          deletes (lit "Content-Length") (
            bind (wrapped gzip_writer (next r) (record { coder = codec.reset; failed = false }))
              (λ (o, g). close o g)))
