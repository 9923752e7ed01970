-- ===== src/Http/Headers.antt =====
-- `Filter` of internal/http/filter.go and `writeForwardRequest` of internal/http/http.go. A header is
-- a map, as in net/http, whose functions for keys, folding and lists of tokens are parameters.
pub mod Forwarded
use spaceship.Base.{
  ℕ, Bool, true, false, List, [], ◌∷◌, Option, none, some, Bytes, codes, lookup, insert, remove,
  ◌==◌, if◌then◌else◌,
}
use spaceship.Hosts.{is_empty, trim_space}

abbrev pub Header : Type 0
Header = List (Bytes × List Bytes)

-- `textproto.CanonicalMIMEHeaderKey` and `strings.EqualFold`.
pub record HttpLib : Type 0 where
  pub canonical : Bytes → Bytes
  pub equal_fold : Bytes → Bytes → Bool

-- `strings.Split` at commas
unfoldable pub split_commas : Bytes → List Bytes
split_commas [] = [] ∷ []
split_commas (c ∷ s) = elim (split_commas s) [
  | [] ↦ []
  | t ∷ ts ↦ if c == b',' then [] ∷ t ∷ ts else (c ∷ t) ∷ ts
]

-- `hopHeaders`
abbrev pub hop_headers : List Bytes
hop_headers =
    codes "Connection"
    ∷ codes "Proxy-Connection"
    ∷ codes "Keep-Alive"
    ∷ codes "Proxy-Authenticate"
    ∷ codes "Proxy-Authorization"
    ∷ codes "Te"
    ∷ codes "Trailer"
    ∷ codes "Transfer-Encoding"
    ∷ codes "Upgrade"
    ∷ []

-- The parts of a request that the handlers read and write. `scheme` and `url_host` are those of its
-- URL, and `path` is the rest of it. As in net/http, the transfer codings and the names of the trailer
-- are not in the header of a parsed request but beside it; `Write` makes the framing headers of the
-- wire from them.
pub record Request : Type 0 where
  pub method : Bytes
  pub host : Bytes
  pub request_uri : Bytes
  pub scheme : Bytes
  pub url_host : Bytes
  pub path : Bytes
  pub header : Header
  pub transfer_encoding : List Bytes
  pub trailer : List Bytes
  pub close : Bool

abbrev pub or_empty : Option (List Bytes) → List Bytes
or_empty none = []
or_empty (some vs) = vs

abbrev pub first_of : List Bytes → Bytes
first_of [] = []
first_of (v ∷ _) = v

module _ (lib : HttpLib) where
  -- The methods of `http.Header`.
  unfoldable pub values : Header → Bytes → List Bytes
  values h k = or_empty (lookup (lib.canonical k) h)

  unfoldable pub get : Header → Bytes → Bytes
  get h k = first_of (values h k)

  unfoldable pub del : Header → Bytes → Header
  del h k = remove (lib.canonical k) h

  unfoldable pub set : Header → Bytes → Bytes → Header
  set h k v = insert (lib.canonical k) (v ∷ []) h

  -- The loop over the tokens of a value.
  unfoldable pub del_tokens : Header → List Bytes → Header
  del_tokens h [] = h
  del_tokens h (t ∷ ts) =
      let token = trim_space t in del_tokens (if is_empty token then h else del h token) ts

  unfoldable pub del_values : Header → List Bytes → Header
  del_values h [] = h
  del_values h (v ∷ vs) = del_values (del_tokens h (split_commas v)) vs

  unfoldable pub del_all : Header → List Bytes → Header
  del_all h [] = h
  del_all h (k ∷ ks) = del_all (del h k) ks

  unfoldable pub remove_hop_headers : List Bytes → Header → Header
  remove_hop_headers filter h = del_all (del_values h (values h (codes "Connection"))) filter

  unfoldable pub expects_continue : Header → Bool
  expects_continue h = lib.equal_fold (trim_space (get h (codes "Expect"))) (codes "100-continue")

  -- The request that is given to `Write`.
  unfoldable pub write_forward_request : Request → Bytes → Request
  write_forward_request r host =
      let clean = remove_hop_headers hop_headers r.header in
      let header = if expects_continue clean then del clean (codes "Expect") else clean in
      record r {
        request_uri = [];
        scheme = [];
        url_host = [];
        host = if is_empty r.host then host else r.host;
        close = true;
        header = set header (codes "Connection") (codes "close");
      }
