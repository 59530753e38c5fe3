-- ===== src/Http/Serving.antt =====
-- What the program uses of `http.Handler` and `http.ResponseWriter`: a handler is the calls that it
-- makes, a wrapper answers the calls of another handler by calls of its own, and a connection
-- carries them out.
pub mod Laws
pub mod Invariants
pub mod Whole
pub mod Committed
use gobalancer.Common.{
  ℕ, zero, suc, ◌+◌, ◌-◌, ◌*◌, ◌/◌, ◌%◌, ◌≤◌, ◌<◌, min, bit_xor, String, ◌≡◌, refl, sym, ap, subst,
  fun_ext, ◌∙◌, ◌≡⟨◌⟩◌, ◌∎, ◌≢◌, ◌↔◌, ◌⊎◌, inl, inr, Bool, true, false, not, ◌&&◌, ◌||◌, Option,
  none, some, List, [], ◌∷◌, ◌++◌, map, reverse, Memᴰ, append-nil, append_assoc, arith, ltb, leb,
  ◌==◌, if◌then◌else◌, ltb→lt, lt→ltb, leb→le, ==_iff, tests, Bool-cases, Option-cases, ◌>>=◌,
  of_some, length, get_elem?, take, drop, replicate, select, length-append, take-append-drop,
  length-drop, length-replicate, get_elem?_total, get_elem?-mem, get_elem?-append, drop-get_elem?,
  take_all, count-select, All-append, All-take, All-drop, All-replicate, All-mem, All-intro,
  drop_all, take-get_elem?, All, count, count-append, ℤ, pos, negsuc, pos_part, neg_part, sub_ℕ,
  ◌+ℤ◌, ◌-ℤ◌, ◌≤ℤ◌, ◌<ℤ◌, ltb_ℤ, leb_ℤ, eq_ℤ, rounds, two_64, two_63, max_int64, wrap64, add64,
  sub64, IsInt64, wrap64-IsInt64, wrap64_id, add64_one, add64_pos, rem_ℤ, index, clamp64, since,
  second, Str, lit, str_eq, str_eq_iff, str_eq_refl, is_empty, index_byte, last_index_byte,
  contains, contains-append, All-contains, decimal, index_byte-lt, last_index_byte-lt,
  last_index_byte-none, lookup, insert, remove, lookup-insert, lookup-insert_self, insert-insert,
  lookup-remove,
}
use gobalancer.Http.{Request, Header, header_get, header_set, header_del}

-- How a metric changes.
pub data Change : Type 0 where
  inc dec sampled : Change

-- What is left behind by a request besides its response: a line of the log, the change of a metric
-- under its label values.
pub data Event : Type 0 where
  logged : (method path : Str) (status : ℕ) (bytes : ℤ) (client_ip user_agent : Str) → Event
  measured : (name : Str) (values : List Str) → Change → Event

-- A status that `WriteHeader` accepts. It panics at any other one if none has gone out yet, so that a
-- handler that calls it so is one that `panics` there.
pub record Status : Type 0 where
  pub code : ℕ
  pub valid : (leb 100 code && leb code 999) ≡ true

-- The calls of a handler until it returns or panics. `Write` answers with a count of bytes, and
-- whether there was an error.
pub data Serving (A : Type 0) : Type 0 where
  returns : A → Serving A
  panics : Serving A
  gets : (key : Str) → (Str → Serving A) → Serving A
  sets : (key value : Str) → Serving A → Serving A
  deletes : (key : Str) → Serving A → Serving A
  writes_header : Status → Serving A → Serving A
  writes : (bytes : Str) → (ℕ × Bool → Serving A) → Serving A
  emits : Event → Serving A → Serving A

abbrev pub Handler : Type 0
Handler = Request → Serving (Unit {0})

module _ {A B : Type 0} where
  unfoldable pub bind : Serving A → (A → Serving B) → Serving B
  bind (returns a) f = f a
  bind panics f = panics
  bind (gets k c) f = gets k (λ v. bind (c v) f)
  bind (sets k v c) f = sets k v (bind c f)
  bind (deletes k c) f = deletes k (bind c f)
  bind (writes_header n c) f = writes_header n (bind c f)
  bind (writes s c) f = writes s (λ a. bind (c a) f)
  bind (emits e c) f = emits e (bind c f)

-- A struct that embeds an `http.ResponseWriter`: the two methods that it declares. The others are
-- those of the embedded writer.
pub record Wrapper (W : Type 0) : Type 0 where
  pub write_header : W → Status → Serving W
  pub write : W → Str → Serving ((ℕ × Bool) × W)

module _ {A W : Type 0} (wrapper : Wrapper W) where
  -- A handler that is given the wrapper: `none` is a panic, whose deferred functions see the
  -- wrapper's state.
  unfoldable pub wrapped : Serving A → W → Serving (Option A × W)
  unfolding bind
  wrapped (returns a) w = returns (some a, w)
  wrapped panics w = returns (none, w)
  wrapped (gets k c) w = gets k (λ v. wrapped (c v) w)
  wrapped (sets k v c) w = sets k v (wrapped c w)
  wrapped (deletes k c) w = deletes k (wrapped c w)
  wrapped (writes_header n c) w = bind (wrapper.write_header w n) (λ w'. wrapped c w')
  wrapped (writes s c) w = bind (wrapper.write w s) (λ p. wrapped (c p.0) p.1)
  wrapped (emits e c) w = emits e (wrapped c w)

-- The rest of a function behind a call that may have panicked.
unfoldable pub resume : {A B : Type 0} → Option A → (A → Serving B) → Serving B
resume none f = panics
resume (some a) f = f a

-- The response of a connection, and what was left behind.
pub record Response : Type 0 where
  pub header : Header
  pub committed : Option (ℕ × Header)  -- the status and the header that went out
  pub informed : Option ℕ  -- the last informational status that went out
  pub body : Str
  pub superfluous : Bool  -- `WriteHeader` was called behind the final status, which is logged
  pub events : List Event

-- A response that nothing was sent of.
abbrev pub unsent : Header → Response
unsent header = record {
  header = header;
  committed = none;
  informed = none;
  body = [];
  superfluous = false;
  events = [];
}

-- An informational status goes out at once and leaves the response open.
abbrev pub informational : ℕ → Bool
informational code = leb 100 code && ltb code 200 && not (code == 101)

-- `WriteHeader` of `net/http`, for a status that it accepts: the first final one counts, with the header
-- as it is then.
unfoldable pub commit : ℕ → Response → Response
commit code w = elim w.committed [
  | none ↦
      if informational code
      then record w { informed = some code }
      else record w { committed = some (code, w.header) }
  | some _ ↦ record w { superfluous = true }
]

-- The first `Write` sends the header with 200 where none went out.
unfoldable pub ready : Response → Response
unfolding commit
ready w = elim w.committed [ none ↦ commit 200 w | some _ ↦ w ]

-- Of the bytes that are written, the connection takes some: that many, and whether there was an
-- error.
module _ (takes : Response → Str → ℕ × Bool) where
  unfoldable pub send : Str → Response → (ℕ × Bool) × Response
  unfolding ready
  send s w =
      let (n, failed) = takes (ready w) s in
      ((min n (length s), failed), record (ready w) { body = (ready w).body ++ take n s })

  unfoldable pub serves : {A : Type 0} → Serving A → Response → Option A × Response
  unfolding send header_get header_set header_del
  serves (returns a) w = (some a, w)
  serves panics w = (none, w)
  serves (gets k c) w = serves (c (header_get w.header k)) w
  serves (sets k v c) w = serves c (record w { header = header_set w.header k v })
  serves (deletes k c) w = serves c (record w { header = header_del w.header k })
  serves (writes_header n c) w = serves c (commit n.code w)
  serves (writes s c) w = let (a, w') = send s w in serves (c a) w'
  serves (emits e c) w = serves c (record w { events = w.events ++ e ∷ [] })

-- What the client gets as status and header once the handler has returned.
unfoldable pub sent : Response → ℕ × Header
sent w = elim w.committed [ none ↦ (200, w.header) | some c ↦ c ]
