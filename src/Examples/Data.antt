-- ===== src/Examples/Data.antt =====
-- Three backends, a request and other data of the examples.
use gobalancer.Common.{zero, suc, String, false, none, List, [], ◌∷◌, ℤ, pos, Str, lit}
use gobalancer.Backend.{Backend, Heap, Ref, Health, healthy, unhealthy, Url}
use gobalancer.Http.{Request}

abbrev url : Str → Url
url host = record { scheme = lit "http"; host = host; path = []; raw_query = [] }

abbrev backend : String → ℤ → ℤ → Health → Backend
backend id weight conns health = record {
  id = lit id;
  url = url (lit "10.0.0.1:80");
  weight = weight;
  active_conns = conns;
  health = health;
}

abbrev cells : Ref → Backend
cells zero = backend "a" (pos 1) (pos 5) healthy
cells (suc zero) = backend "b" (pos 3) (pos 2) healthy
cells (suc (suc n)) = backend "c" (pos 0) (pos 2) unhealthy

abbrev pub heap : Heap
heap = record { next = 3; cell = cells }

abbrev pub refs : List Ref
refs = 0 ∷ 1 ∷ 2 ∷ []

abbrev pub request : String → Request
request ip = record {
  method = lit "GET";
  host = lit "example.com:80";
  url_scheme = [];
  url_host = [];
  url_path = lit "/";
  url_query = [];
  header = (lit "X-Forwarded-For", lit ip) ∷ [];
  remote_addr = lit "192.0.2.1:1234";
  tls = false;
  context = record { request_id = none; backend = none };
}
